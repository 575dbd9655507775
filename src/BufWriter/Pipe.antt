-- ===== src/BufWriter/Pipe.antt =====
-- What `buf_writer_pipe` of src/buf_writer.c passes on of what `read_cb` reads.
use mathlib.Core.List.{append_assoc, append-nil}
use jemalloc.Base.{
  ℕ, zero, suc, ◌-◌, ◌≤◌, ◌<◌, ◌≡◌, refl, sym, ap, subst, ◌∙◌, arith, List, [], ◌∷◌, ◌++◌, length,
  length-append,
}
use jemalloc.BufWriter.{BufWriter, buf_end, buf_writer_flush, flush_full, pipe_from}
use jemalloc.BufWriter.Output.{
  IsText, written, IsRoom, append-IsText, flushed_lem, flush_full-IsFreed,
}

-- What is relied on of `read_cb`, for what it has still to read at each state: it puts the next
-- characters of that into the buffer, no more than there is room for, and some if there are any and
-- there is room.
pub record IsReader {ℓ} {S : Type ℓ} (read_cb : S → ℕ → S × List ℕ) (rest : S → List ℕ)
    : Type ℓ where
  pub next : (s : S) (limit : ℕ) → rest s ≡ (read_cb s limit).1 ++ rest (read_cb s limit).0
  pub limited : (s : S) (limit : ℕ) → length (read_cb s limit).1 ≤ limit
  pub progress :
      (s : S) (limit : ℕ) → 0 < limit → 0 < length (rest s) → 0 < length (read_cb s limit).1

prefix-IsText : (xs ys : List ℕ) → IsText (xs ++ ys) → IsText xs × IsText ys
unfolding IsText
prefix-IsText [] ys h = (_, h)
prefix-IsText (x ∷ xs) ys h = let (p, q) = prefix-IsText xs ys h.1 in ((h.0, p), q)

empty_of : (xs : List ℕ) → (0 < length xs → 0 < length {A = ℕ} []) → xs ≡ []
empty_of [] h = refl
empty_of (x ∷ xs) h = absurd (omega (arith, h (omega arith)))

-- A round, by what it reads.
abbrev after_round : List ℕ → BufWriter → BufWriter → BufWriter
after_round chunk w next = elim chunk [ [] ↦ buf_writer_flush w | c ∷ cs ↦ next ]

module _ {ℓ} {S : Type ℓ} (read_cb : S → ℕ → S × List ℕ) (rest : S → List ℕ)
    (reader : IsReader read_cb rest) where
  round_output :
      (w : BufWriter) (s s' : S) (chunk : List ℕ) (next : BufWriter)
      → IsRoom w
      → rest s ≡ chunk ++ rest s'
      → (0 < length (rest s) → 0 < length chunk)
      → (0 < length chunk → next.output ≡ (w.output ++ (w.held ++ chunk)) ++ rest s')
      → (after_round chunk w next).output ≡ written w ++ rest s
  round_output w s s' [] next room e progress went =
      flushed_lem w room
      ∙ sym (append-nil (written w))
      ∙ ap (λ cs. written w ++ cs) (sym (empty_of (rest s) progress))
  round_output w s s' (c ∷ cs) next room e progress went =
      went (omega arith)
      ∙ ap (λ xs. xs ++ rest s') (sym (append_assoc w.output w.held (c ∷ cs)))
      ∙ append_assoc (written w) (c ∷ cs) (rest s')
      ∙ ap (λ xs. written w ++ xs) (sym e)

  -- A round for each character that is left to read, and one more, is enough.
  pub pipe_from-output :
      (rounds : ℕ) (w : BufWriter) (s : S)
      → IsRoom w
      → buf_end w ≤ w.buf_size
      → length (rest s) < rounds
      → IsText (rest s)
      → (pipe_from read_cb rounds w s).output ≡ written w ++ rest s
  unfolding pipe_from
  pipe_from-output zero w s room bound enough text = absurd (omega (arith, enough))
  pipe_from-output (suc rounds) w s room bound enough text =
      let w' = flush_full w in
      let freed = flush_full-IsFreed w room in
      let below = freed.bound bound in
      let limit = w'.buf_size - buf_end w' in
      let s' = (read_cb s limit).0 in
      let chunk = (read_cb s limit).1 in
      let e = reader.next s limit in
      let texts = prefix-IsText chunk (rest s') (subst IsText e text) in
      let shorter = ap (λ (xs : List ℕ). length xs) e in
      round_output w' s s' chunk
        (pipe_from read_cb rounds (record w' { held = w'.held ++ chunk }) s') freed.room e
        (λ some_left. reader.progress s limit (omega (arith, below)) some_left)
        (λ some_read.
          pipe_from-output rounds (record w' { held = w'.held ++ chunk }) s'
            (record {
              buf = freed.room.buf;
              size = freed.room.size;
              text = append-IsText w'.held chunk freed.room.text texts.0;
            })
            (omega (arith, below, reader.limited s limit, length-append w'.held chunk))
            (omega (arith, enough, some_read, shorter, length-append chunk (rest s'))) texts.1)
      ∙ ap (λ cs. cs ++ rest s) freed.same
