-- ===== src/Memory/Examples.antt =====
-- Copies of overlapping and of wrapping bytes.
use libi.Base.{◌+◌, ◌-◌, ◌≡◌, refl, ◌&&◌, arith, ltb, leb, if◌then◌else◌}
use libi.Memory.{Far, Memory, linear_addr_rm, fmemmove}
use libi.Memory.Move.{fmemmove_lem}

-- Five bytes at 0x20, two bytes further, through another segment.
abbrev from_here : Far
from_here = record { seg = 2; off = 0 }

abbrev to_there : Far
to_there = record { seg = 1; off = 18 }

abbrev counting : Memory
counting a = a

moved_up : fmemmove to_there from_here 5 counting 38 ≡ 36
unfolding fmemmove
moved_up = refl

fmemmove_lem_example : fmemmove to_there from_here 5 counting 38 ≡ (
    if leb (linear_addr_rm to_there) 38 && ltb 38 (linear_addr_rm to_there + 5)
    then counting (linear_addr_rm from_here + (38 - linear_addr_rm to_there))
    else counting 38)
fmemmove_lem_example =
    fmemmove_lem to_there from_here 5 counting 38 (omega arith) (omega arith) (omega arith)
      (omega arith)
