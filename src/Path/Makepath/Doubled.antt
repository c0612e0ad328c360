-- ===== src/Path/Makepath/Doubled.antt =====
-- `_makepath` on directories of double-byte characters: what `last_c_was_path_sep_p` misses.
use libi.Base.{ℕ, suc, ◌+◌, ◌<◌, ◌≡◌, refl, sym, ap, ◌∙◌, Bool, true, false, none, some}
use libi.Base.{List, [], ◌∷◌, ◌++◌, append-nil, append_assoc, arith}
use libi.Base.{length, length-append, All}
use mathlib.Core.Path.{ap₂}
use libi.Path.Chars.{LeadTable, max_path, path_sep_p, dbcs_lead_p}
use libi.Path.Makepath.{Build, ok, add_char, track, add_loop, add}
use libi.Path.Makepath.{put_drive, add_ext, start, done, makepath}
use libi.Base.{not, ◌&&◌, if◌then◌else◌}
use libi.Path.Makepath.{◌>>=◌}
use libi.Path.Makepath.Ascii.{add_char_room}

-- A lead byte and a trail byte each.
abbrev pub pair_bytes : List (ℕ × ℕ) → List ℕ
pair_bytes [] = []
pair_bytes ((lead, trail) ∷ pairs) = lead ∷ trail ∷ pair_bytes pairs

abbrev pub LedBy : LeadTable → List (ℕ × ℕ) → Type 0
LedBy dbcs = All (λ pair. dbcs_lead_p (pair.0) dbcs ≡ true)

add_char-grow :
    (x : ℕ) (s : Build) (n : ℕ)
    → length s.out + suc n < max_path
    → (add_char x s ≡ ok (record s { out = s.out ++ (x ∷ []) }))
      × (length (s.out ++ (x ∷ [])) + n < max_path)
add_char-grow x s n h =
    (add_char_room x s (omega arith), omega (arith, length-append s.out (x ∷ [])))

-- With room for it, all of a component is copied, whatever characters it has.
add_loop-out :
    (dbcs : LeadTable) (p : Bool) (comp : List ℕ) (s : Build)
    → length s.out + length comp < max_path
    → (s' : Build) × (add_loop dbcs p comp s ≡ ok s') × (s'.out ≡ s.out ++ comp)
unfolding add_loop
add_loop-out dbcs p [] s h = (s, refl, sym (append-nil s.out))
add_loop-out dbcs p (c ∷ comp) s h =
    let pushed : Build = record s { out = s.out ++ (c ∷ []) } in
    let next : Build = track dbcs p c pushed in
    let (copied, room) = add_char-grow c s (length comp) h in
    let kept : next.out ≡ pushed.out = unfold track in ground arith in
    let (s', e, q) = add_loop-out dbcs p comp next (rw kept room) in
    (s', rw copied e, q ∙ rw kept (append_assoc s.out (c ∷ []) comp))

track_lead :
    (dbcs : LeadTable) (c : ℕ) (s : Build)
    → s.lead ≡ false
    → dbcs_lead_p c dbcs ≡ true
    → track dbcs true c s ≡ record s { lead = true }
unfolding track
track_lead dbcs c s h e = ground arith

track_trail :
    (dbcs : LeadTable) (c : ℕ) (s : Build)
    → s.lead ≡ true
    → track dbcs true c s ≡ record s { lead = false }
unfolding track
track_trail dbcs c s h = ground arith

-- Double-byte characters change nothing but `out`.
add_loop-pairs :
    (dbcs : LeadTable) (pairs : List (ℕ × ℕ)) (s : Build)
    → LedBy dbcs pairs
    → s.lead ≡ false
    → length s.out + length (pair_bytes pairs) < max_path
    → add_loop dbcs true (pair_bytes pairs) s ≡ ok (record s { out = s.out ++ pair_bytes pairs })
unfolding add_loop
add_loop-pairs dbcs [] s led h room = ap (λ o. ok (record s { out = o })) (sym (append-nil s.out))
add_loop-pairs dbcs ((lead, trail) ∷ pairs) s (l, led) h room =
    let s1 : Build = record s { out = s.out ++ (lead ∷ []) } in
    let s2 : Build = record s1 { lead = true; out = s1.out ++ (trail ∷ []) } in
    let s3 : Build = record s2 { lead = false } in
    let (copied, room1) = add_char-grow lead s (suc (length (pair_bytes pairs))) room in
    let (copied2, room2) =
      add_char-grow trail (record s1 { lead = true }) (length (pair_bytes pairs)) room1 in
    rw (copied, track_lead dbcs lead s1 h l, copied2, track_trail dbcs trail s2 refl)
      (add_loop-pairs dbcs pairs s3 led refl room2
        ∙ ap₂ (λ o b. ok (record s { out = o; lead = b }))
            (append_assoc s1.out (trail ∷ []) (pair_bytes pairs)
              ∙ append_assoc s.out (lead ∷ []) (trail ∷ pair_bytes pairs))
            (sym h))

track_sep :
    (dbcs : LeadTable) (c : ℕ) (s : Build)
    → s.lead ≡ false
    → dbcs_lead_p c dbcs ≡ false
    → path_sep_p c ≡ true
    → track dbcs true c s ≡ record s { sep = c; at_sep = true }
unfolding track
track_sep dbcs c s h e p = ground arith

add_dir-pairs :
    (dbcs : LeadTable) (sep : ℕ) (pairs : List (ℕ × ℕ))
    → path_sep_p sep ≡ true
    → dbcs_lead_p sep dbcs ≡ false
    → LedBy dbcs pairs
    → length (sep ∷ pair_bytes pairs) < max_path
    → add dbcs true (some (sep ∷ pair_bytes pairs)) (start [])
      ≡ ok (record { out = sep ∷ pair_bytes pairs; lead = false; at_sep = true; sep = sep })
unfolding add add_loop
add_dir-pairs dbcs sep pairs is_sep single led room =
    let s1 : Build = record (start []) { out = sep ∷ [] } in
    let s2 : Build = record s1 { sep = sep; at_sep = true } in
    let looped : add_loop dbcs true (sep ∷ pair_bytes pairs) (start [])
        ≡ ok (record s2 { out = sep ∷ pair_bytes pairs }) =
      rw (add_char_room sep (start []) (omega arith)) (
        ap (λ t. add_loop dbcs true (pair_bytes pairs) t) (track_sep dbcs sep s1 refl single is_sep)
        ∙ add_loop-pairs dbcs pairs s2 led refl (omega arith)) in
    ap (λ r. r >>= λ s'. if true && not s'.at_sep then add_char s'.sep s' else ok s') looped

add_name :
    (dbcs : LeadTable) (fname : List ℕ) (s : Build)
    → s.lead ≡ false
    → length s.out + length fname < max_path
    → (s' : Build) × (add dbcs false (some fname) s ≡ ok s') × (s'.out ≡ s.out ++ fname)
unfolding add
add_name dbcs [] s h room = (s, refl, sym (append-nil s.out))
add_name dbcs (c ∷ fname) s h room =
    let (s', e, q) = add_loop-out dbcs false (c ∷ fname) s room in (s', simp (h, e), q)

-- A directory that is one separator and then double-byte characters only, which therefore ends in
-- no separator, gets none: the file name is joined to its last component. This holds for every
-- table with those lead bytes, and every name with which the path fits.
pub makepath_joins_double :
    (dbcs : LeadTable) (sep : ℕ) (pairs : List (ℕ × ℕ)) (fname : List ℕ)
    → path_sep_p sep ≡ true
    → dbcs_lead_p sep dbcs ≡ false
    → LedBy dbcs pairs
    → length ((sep ∷ pair_bytes pairs) ++ fname) < max_path
    → makepath true dbcs none (some (sep ∷ pair_bytes pairs)) (some fname) none
      ≡ done ((sep ∷ pair_bytes pairs) ++ fname)
unfolding makepath put_drive add_ext
makepath_joins_double dbcs sep pairs fname is_sep single led room =
    let dir : List ℕ = sep ∷ pair_bytes pairs in
    let s : Build = record { out = dir; lead = false; at_sep = true; sep = sep } in
    let room' : length dir + length fname < max_path = omega (arith, length-append dir fname) in
    let (s', e, q) = add_name dbcs fname s refl room' in
    rw (add_dir-pairs dbcs sep pairs is_sep single led (omega arith), e) (ap done q)
