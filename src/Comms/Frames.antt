-- ===== src/Comms/Frames.antt =====
-- Frames and command lines: bounds, and the line that is read back.
use config_wp.Base.{
  some_injective, ℕ, suc, ◌+◌, ◌-◌, ◌<◌, ◌≤◌, ◌≡◌, sym, ap, ◌∙◌, subst, Bool, true, some, List, [],
  ◌∷◌, ◌++◌, length, take, drop, arith, ltb, leb, append_assoc, append-nil, length-append,
  length-take, Bool-cases, inl, inr, ltb→lt, take-append-drop, if◌then◌else◌,
}
use config_wp.Comms.{
  Recv, received, closed, interrupted, failed, receive, Sent, took, again, broken, send_all,
  is_blank, is_line_end, to_upper, skip_blanks, copy_line, keep_blank, strip_trailing, extract_cmd,
}

-- Whatever pieces recv delivers, with interruptions and errors between them, a frame that the
-- serial line has read is no longer than the room in its buffer.
pub receive-within :
    (room : ℕ) (script : List Recv) (rx frame : List ℕ)
    → length rx ≤ room
    → receive room script rx ≡ some frame
    → length frame ≤ room
unfolding receive
receive-within room [] rx frame h e = absurd cc
receive-within room (received bytes ∷ more) rx frame h e =
    let rx' = rx ++ take (room - length rx) bytes in
    let fits : length rx' ≤ room = omega (
      arith,
      length-append rx (take (room - length rx) bytes),
      length-take (room - length rx) bytes,
    ) in
    elim (Bool-cases (leb room (length rx'))) [
      | inl full ↦
          subst (λ f. length f ≤ room)
            (some_injective
              (ap (λ (b : Bool). if b then some rx' else receive room more rx') (sym full) ∙ e))
            fits
      | inr short ↦
          receive-within room more rx' frame fits
            (ap (λ (b : Bool). if b then some rx' else receive room more rx') (sym short) ∙ e)
    ]
receive-within room (closed ∷ more) rx frame h e = subst (λ f. length f ≤ room) (some_injective e) h
receive-within room (interrupted ∷ more) rx frame h e = receive-within room more rx frame h e
receive-within room (failed ∷ more) rx frame h e = subst (λ f. length f ≤ room) (some_injective e) h

-- A reply that was sent was sent whole, whatever pieces the socket took.
pub send_all_complete :
    (script : List Sent) (bytes out sent : List ℕ)
    → send_all script bytes out ≡ some (true, sent)
    → sent ≡ out ++ bytes
unfolding send_all
send_all_complete script [] out sent e = cc (append-nil out, e)
send_all_complete [] (b ∷ bytes) out sent e = absurd cc
send_all_complete (took n ∷ script) (b ∷ bytes) out sent e =
    send_all_complete script (drop n bytes) (out ++ b ∷ take n bytes) sent e
    ∙ append_assoc out (b ∷ take n bytes) (drop n bytes)
    ∙ ap (λ t. out ++ b ∷ t) (take-append-drop n bytes)
send_all_complete (again ∷ script) (b ∷ bytes) out sent e =
    send_all_complete script (b ∷ bytes) out sent e
send_all_complete (broken ∷ script) (b ∷ bytes) out sent e = absurd cc

copy_line-length :
    (room : ℕ) (s out : List ℕ) → length out < room → length (copy_line room s out).0 < room
unfolding copy_line
copy_line-length room [] out h = h
copy_line-length room (c ∷ s) out h = elim (Bool-cases (is_line_end c)) [
  | inl stop ↦ rw stop h
  | inr more ↦ elim (Bool-cases (ltb (length out + 1) room)) [
    | inl fits ↦
        rw (more, fits)
          (copy_line-length room s (out ++ to_upper c ∷ [])
            (omega (arith, length-append out (to_upper c ∷ []), ltb→lt (length out + 1) room fits)))
    | inr full ↦ rw (more, full) (copy_line-length room s out h)
  ]
]

keep_blank-length : (c : ℕ) (s : List ℕ) → length (keep_blank c s) ≤ suc (length s)
keep_blank-length c [] = elim (Bool-cases (is_blank c)) [
  | inl blank ↦ rw blank (omega arith)
  | inr other ↦ rw other (omega arith)
]
keep_blank-length c (d ∷ s) = omega arith

strip_trailing-length : (s : List ℕ) → length (strip_trailing s) ≤ length s
unfolding strip_trailing
strip_trailing-length [] = omega arith
strip_trailing-length (c ∷ s) =
    omega (arith, keep_blank-length c (strip_trailing s), strip_trailing-length s)

-- The command fits its buffer with its terminator, however long the line is.
pub extract_cmd-length :
    (buf : List ℕ) (room : ℕ) → 0 < room → length (extract_cmd buf room).0 < room
unfolding extract_cmd
extract_cmd-length buf room h =
    let out = (copy_line room (skip_blanks buf) []).0 in
    omega (arith, strip_trailing-length out, copy_line-length room (skip_blanks buf) [] h)
