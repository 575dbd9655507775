-- ===== src/BufWriter/Session.antt =====
-- A buffered writer of src/buf_writer.c from its initialization to its end.
use mathlib.Core.List.{append_assoc, append-nil}
use jemalloc.Base.{
  ℕ, ◌≤◌, ◌<◌, ◌≡◌, refl, sym, ap, ◌∙◌, arith, Bool, true, false, if_cases, Bool-cases, inl, inr,
  List, [], ◌∷◌, ◌++◌, length,
}
use jemalloc.BufWriter.{
  BufWriter, buf_writer_init, buf_writer_flush, buf_writer_cb, buf_writer_terminate,
  buf_writer_pipe,
}
use jemalloc.BufWriter.Output.{
  IsText, AreTexts, concat, written, IsWriter, flushed_lem, copy_from-IsExtended,
}
use jemalloc.BufWriter.Pipe.{IsReader, pipe_from-output}

unfoldable pub write_strings : BufWriter → List (List ℕ) → BufWriter
write_strings w [] = w
write_strings w (s ∷ strings) = write_strings (buf_writer_cb w s) strings

none_written : (w : BufWriter) → w.held ≡ [] → written w ≡ w.output
none_written w e = ap (λ cs. w.output ++ cs) e ∙ append-nil w.output

cb-IsWriter :
    (w : BufWriter) (s : List ℕ)
    → IsWriter w
    → IsText s
    → IsWriter (buf_writer_cb w s) × (written (buf_writer_cb w s) ≡ written w ++ s)
unfolding buf_writer_cb
cb-IsWriter w s ok text =
    if_cases (λ (w' : BufWriter). IsWriter w' × (written w' ≡ written w ++ s)) w.has_buf
      (λ yes.
        let (room, bound) = ok.room yes in
        let extended = copy_from-IsExtended (length s) w s room bound (omega arith) text in
        (
          record {
            room = λ _. (extended.room, extended.bound);
            none_held = λ no. absurd (cc (no, extended.room.buf));
          },
          extended.grown,
        ))
      (λ no.
        let none = ok.none_held no in
        (
          record { room = λ yes. absurd (cc (yes, no)); none_held = λ _. none },
          none_written (record w { output = w.output ++ s }) none
              ∙ ap (λ cs. cs ++ s) (sym (none_written w none)),
        ))

strings-IsWriter :
    (w : BufWriter) (strings : List (List ℕ))
    → IsWriter w
    → AreTexts strings
    → IsWriter (write_strings w strings)
      × (written (write_strings w strings) ≡ written w ++ concat strings)
unfolding write_strings AreTexts concat
strings-IsWriter w [] ok texts = (ok, sym (append-nil (written w)))
strings-IsWriter w (s ∷ strings) ok texts =
    let (ok', same) = cb-IsWriter w s ok texts.0 in
    let (ok'', rest) = strings-IsWriter (buf_writer_cb w s) strings ok' texts.1 in
    (
      ok'',
      rest ∙ ap (λ cs. cs ++ concat strings) same ∙ append_assoc (written w) s (concat strings),
    )

no_buffer : (w : BufWriter) → w.has_buf ≡ false → buf_writer_flush w ≡ w
unfolding buf_writer_flush
no_buffer w e = rw e refl

flushed_output : (w : BufWriter) → IsWriter w → (buf_writer_flush w).output ≡ written w
flushed_output w ok = elim (Bool-cases w.has_buf) [
  | inl e ↦ flushed_lem w (ok.room e).0
  | inr e ↦ ap (λ (v : BufWriter). v.output) (no_buffer w e) ∙ sym (none_written w (ok.none_held e))
]

terminated : (w : BufWriter) → IsWriter w → (buf_writer_terminate w).output ≡ written w
unfolding buf_writer_terminate
terminated w ok =
    if_cases (λ (w' : BufWriter). w'.output ≡ written w) (buf_writer_flush w).internal_buf
      (λ _. flushed_output w ok) (λ _. flushed_output w ok)

room_at_first :
    (output : List ℕ) (given allocated : Bool) (buf_len : ℕ)
    → 2 ≤ buf_len
    → IsWriter (buf_writer_init output given allocated buf_len).0
unfolding buf_writer_init IsText
room_at_first output true allocated buf_len h = record {
  room = λ yes. (record { buf = refl; size = omega (arith, h); text = _ }, omega arith);
  none_held = λ no. refl;
}
room_at_first output false true buf_len h = record {
  room = λ yes. (record { buf = refl; size = omega (arith, h); text = _ }, omega arith);
  none_held = λ no. refl;
}
room_at_first output false false buf_len h = record {
  room = λ yes. absurd (cc yes);
  none_held = λ no. refl;
}

written_at_first :
    (output : List ℕ) (given allocated : Bool) (buf_len : ℕ)
    → written (buf_writer_init output given allocated buf_len).0 ≡ output
unfolding buf_writer_init
written_at_first output given allocated buf_len = append-nil output

backup_has_buf : (output : List ℕ) → (buf_writer_init output true true 16).0.has_buf ≡ true
unfolding buf_writer_init
backup_has_buf output = refl

piped {ℓ} :
    {S : Type ℓ} (read_cb : S → ℕ → S × List ℕ) (rest : S → List ℕ) (w : BufWriter) (s : S)
    (rounds : ℕ)
    → IsReader read_cb rest
    → IsWriter w
    → length (rest s) < rounds
    → IsText (rest s)
    → (buf_writer_pipe read_cb rounds w s).output ≡ written w ++ rest s
unfolding buf_writer_pipe
piped read_cb rest w s rounds reader ok enough text =
    if_cases (λ (w' : BufWriter). w'.output ≡ written w ++ rest s) w.has_buf
      (λ yes.
        let (room, bound) = ok.room yes in
        pipe_from-output read_cb rest reader rounds w s room bound enough text)
      (λ no.
        let backup = (buf_writer_init w.output true true 16).0 in
        let (room, bound) =
          (room_at_first w.output true true 16 (omega arith)).room (backup_has_buf w.output) in
        pipe_from-output read_cb rest reader rounds backup s room bound enough text
        ∙ ap (λ cs. cs ++ rest s)
            (written_at_first w.output true true 16 ∙ sym (none_written w (ok.none_held no))))

-- For a buffer of at least two characters, given or not, with memory or without, and no character 0: what
-- `write_cb` got when the writer is terminated after some strings are these strings, one after the
-- other, behind what was written before. And when `buf_writer_pipe` runs on a `read_cb` that keeps to
-- the room it is given and reads something while there is something left, for more rounds than there
-- are characters to read, `write_cb` got all that was to be read, behind what was written before.
pub writer_loses_nothing {ℓ} :
    {S : Type ℓ} (read_cb : S → ℕ → S × List ℕ) (rest : S → List ℕ) (s : S) (rounds : ℕ)
    (output : List ℕ) (given allocated : Bool) (buf_len : ℕ) (strings : List (List ℕ))
    → 2 ≤ buf_len
    → AreTexts strings
    → IsReader read_cb rest
    → length (rest s) < rounds
    → IsText (rest s)
    → ((buf_writer_terminate
          (write_strings (buf_writer_init output given allocated buf_len).0 strings)).output
        ≡ output ++ concat strings)
      × ((buf_writer_pipe read_cb rounds
            (buf_writer_init output given allocated buf_len).0
            s).output
          ≡ output ++ rest s)
writer_loses_nothing read_cb rest s rounds output given allocated buf_len strings h texts reader
      enough text =
    let w = (buf_writer_init output given allocated buf_len).0 in
    let ok = room_at_first output given allocated buf_len h in
    let (ok', same) = strings-IsWriter w strings ok texts in
    let before = written_at_first output given allocated buf_len in
    (
      terminated (write_strings w strings) ok' ∙ same ∙ ap (λ cs. cs ++ concat strings) before,
      piped read_cb rest w s rounds reader ok enough text ∙ ap (λ cs. cs ++ rest s) before,
    )
