-- ===== src/BufWriter.antt =====
-- src/buf_writer.c: the buffered writer. What `write_cb` is given, one string after the other, is a list
-- of characters. What allocates the internal buffer is a parameter: whether there is memory.
mod Tests
pub mod Output
pub mod Pipe
pub mod Session
use jemalloc.Base.{
  ℕ, zero, suc, ◌+◌, ◌-◌, Bool, true, false, ◌==◌, ltb, if◌then◌else◌, List, [], ◌∷◌, ◌++◌, length,
  take, drop,
}

-- `held` are the characters of the buffer below `buf_end`; `has_buf` is false for a NULL buffer.
pub record BufWriter : Type 0 where
  pub output : List ℕ
  pub has_buf : Bool
  pub held : List ℕ
  pub buf_size : ℕ
  pub internal_buf : Bool

abbrev pub buf_end : BufWriter → ℕ
buf_end w = length w.held

-- The characters of a string, which ends at the first 0.
unfoldable pub c_string : List ℕ → List ℕ
c_string [] = []
c_string (c ∷ cs) = let rest = c_string cs in if c == 0 then [] else c ∷ rest

-- After the initialization, and whether there is no buffer. `output` is what was written before.
unfoldable pub buf_writer_init : List ℕ → Bool → Bool → ℕ → BufWriter × Bool
buf_writer_init output given allocated buf_len =
    let has_buf = (if given then true else allocated) in
    (
      record {
        output = output;
        has_buf = has_buf;
        held = [];
        buf_size = if has_buf then buf_len - 1 else 0;
        internal_buf = if given then false else true;
      },
      (if has_buf then false else true),
    )

unfoldable pub buf_writer_flush : BufWriter → BufWriter
buf_writer_flush w =
    if w.has_buf then record w { output = w.output ++ c_string w.held; held = [] } else w

-- The flush of a full buffer.
unfoldable pub flush_full : BufWriter → BufWriter
flush_full w = if buf_end w == w.buf_size then buf_writer_flush w else w

-- The loop of `buf_writer_cb` over what is left of the string. A round copies a character at least, so a
-- round per character is enough.
unfoldable pub copy_from : ℕ → BufWriter → List ℕ → BufWriter
copy_from rounds w [] = w
copy_from zero w (c ∷ s) = w
copy_from (suc rounds) w (c ∷ s) =
    let w' = flush_full w in
    let s_remain = length (c ∷ s) in
    let buf_remain = w'.buf_size - buf_end w' in
    let n = (if ltb s_remain buf_remain then s_remain else buf_remain) in
    copy_from rounds (record w' { held = w'.held ++ take n (c ∷ s) }) (drop n (c ∷ s))

-- `s` without its closing 0.
unfoldable pub buf_writer_cb : BufWriter → List ℕ → BufWriter
buf_writer_cb w s =
    if w.has_buf then copy_from (length s) w s else record w { output = w.output ++ s }

-- The freed buffer is gone.
unfoldable pub buf_writer_terminate : BufWriter → BufWriter
buf_writer_terminate w =
    let w' = buf_writer_flush w in
    if w'.internal_buf then record w' { has_buf = false; buf_size = 0 } else w'

-- The loop of `buf_writer_pipe`, with fuel. `read_cb` is given the room that is left, and answers with
-- its next state and the characters that it put there, none for a result that is not positive.
unfoldable pub pipe_from {ℓ} : {S : Type ℓ} → (S → ℕ → S × List ℕ) → ℕ → BufWriter → S → BufWriter
pipe_from read_cb zero w s = w
pipe_from read_cb (suc rounds) w s =
    let w' = flush_full w in
    let (s', chunk) = read_cb s (w'.buf_size - buf_end w') in
    let next = pipe_from read_cb rounds (record w' { held = w'.held ++ chunk }) s' in
    elim chunk [ [] ↦ buf_writer_flush w' | c ∷ cs ↦ next ]

-- Without a buffer, a writer with one of 16 characters stands in; only its output is kept.
unfoldable pub buf_writer_pipe {ℓ} :
    {S : Type ℓ} → (S → ℕ → S × List ℕ) → ℕ → BufWriter → S → BufWriter
buf_writer_pipe read_cb rounds w s =
    let backup = pipe_from read_cb rounds (buf_writer_init w.output true true 16).0 s in
    if w.has_buf then pipe_from read_cb rounds w s else record w { output = backup.output }
