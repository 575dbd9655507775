-- ===== src/BufWriter/Output.antt =====
-- What goes through the buffered writer of src/buf_writer.c.
use mathlib.Core.List.{append_assoc, append-nil}
use jemalloc.Base.{
  ℕ, zero, suc, ◌-◌, ◌≤◌, ◌<◌, ◌≡◌, refl, sym, ap, ◌∙◌, arith, true, false, ◌==◌, ltb,
  if◌then◌else◌, if_cases, List, [], ◌∷◌, ◌++◌, length, length-append, length-take, length-drop,
  take, drop, take-append-drop, pos→==0,
}
use jemalloc.BufWriter.{BufWriter, buf_end, c_string, buf_writer_flush, flush_full, copy_from}

-- Characters other than 0.
unfoldable pub IsText : List ℕ → Type 0
IsText [] = Unit {0}
IsText (c ∷ cs) = (0 < c) × IsText cs

unfoldable pub AreTexts : List (List ℕ) → Type 0
AreTexts [] = Unit {0}
AreTexts (s ∷ strings) = IsText s × AreTexts strings

unfoldable pub concat : List (List ℕ) → List ℕ
concat [] = []
concat (s ∷ strings) = s ++ concat strings

pub string_lem : (cs : List ℕ) → IsText cs → c_string cs ≡ cs
unfolding c_string IsText
string_lem [] h = refl
string_lem (c ∷ cs) h = rw (pos→==0 c h.0, string_lem cs h.1) refl

pub append-IsText : (xs ys : List ℕ) → IsText xs → IsText ys → IsText (xs ++ ys)
unfolding IsText
append-IsText [] ys h k = k
append-IsText (x ∷ xs) ys h k = (h.0, append-IsText xs ys h.1 k)

take-IsText : (n : ℕ) (xs : List ℕ) → IsText xs → IsText (take n xs)
unfolding IsText
take-IsText zero xs h = _
take-IsText (suc n) [] h = _
take-IsText (suc n) (x ∷ xs) h = (h.0, take-IsText n xs h.1)

drop-IsText : (n : ℕ) (xs : List ℕ) → IsText xs → IsText (drop n xs)
unfolding IsText
drop-IsText zero xs h = h
drop-IsText (suc n) [] h = _
drop-IsText (suc n) (x ∷ xs) h = drop-IsText n xs h.1

-- What was written so far, the buffer included.
abbrev pub written : BufWriter → List ℕ
written w = w.output ++ w.held

pub record IsRoom (w : BufWriter) : Type 0 where
  pub buf : w.has_buf ≡ true
  pub size : 0 < w.buf_size
  pub text : IsText w.held

-- A writer with a buffer of the text that it holds, or without.
pub record IsWriter (w : BufWriter) : Type 0 where
  pub room : w.has_buf ≡ true → IsRoom w × (buf_end w ≤ w.buf_size)
  pub none_held : w.has_buf ≡ false → w.held ≡ []

pub flushed_lem : (w : BufWriter) → IsRoom w → (buf_writer_flush w).output ≡ written w
unfolding buf_writer_flush
flushed_lem w room = rw (room.buf, string_lem w.held room.text) refl

-- A flush of a full buffer, if it is full, leaves room.
pub record IsFreed (w w' : BufWriter) : Type 0 where
  pub room : IsRoom w'
  pub bound : buf_end w ≤ w.buf_size → buf_end w' < w'.buf_size
  pub same : written w' ≡ written w

pub flush_full-IsFreed : (w : BufWriter) → IsRoom w → IsFreed w (flush_full w)
unfolding flush_full buf_writer_flush IsText
flush_full-IsFreed w room =
    if_cases (IsFreed w) (buf_end w == w.buf_size)
      (λ full.
        if_cases (IsFreed w) w.has_buf
          (λ _. record {
            room = record { buf = room.buf; size = room.size; text = _ };
            bound = λ h. room.size;
            same =
                append-nil (w.output ++ c_string w.held)
                ∙ ap (λ cs. w.output ++ cs) (string_lem w.held room.text);
          })
          (λ no. absurd (cc (no, room.buf))))
      (λ part. record { room = room; bound = λ h. ground (arith, part, h); same = refl })

-- The writer after text went through it.
pub record IsExtended (w : BufWriter) (s : List ℕ) (w' : BufWriter) : Type 0 where
  pub room : IsRoom w'
  pub bound : buf_end w' ≤ w'.buf_size
  pub grown : written w' ≡ written w ++ s

pub copy_from-IsExtended :
    (rounds : ℕ) (w : BufWriter) (s : List ℕ)
    → IsRoom w
    → buf_end w ≤ w.buf_size
    → length s ≤ rounds
    → IsText s
    → IsExtended w s (copy_from rounds w s)
unfolding copy_from
copy_from-IsExtended rounds w [] room bound enough text = record {
  room = room;
  bound = bound;
  grown = sym (append-nil (written w));
}
copy_from-IsExtended zero w (c ∷ s) room bound enough text = absurd (omega (arith, enough))
copy_from-IsExtended (suc rounds) w (c ∷ s) room bound enough text =
    let freed = flush_full-IsFreed w room in
    let w' = flush_full w in
    let below = freed.bound bound in
    let s_remain = length (c ∷ s) in
    let buf_remain = w'.buf_size - buf_end w' in
    let n : ℕ = (if ltb s_remain buf_remain then s_remain else buf_remain) in
    let some_copied : (0 < n) × (n ≤ buf_remain) =
      if_cases (λ (m : ℕ). (0 < m) × (m ≤ buf_remain)) (ltb s_remain buf_remain)
        (λ y. (omega arith, ground (arith, y))) (λ _. (omega (arith, below), omega arith)) in
    let copied = take n (c ∷ s) in
    let rest =
      copy_from-IsExtended rounds (record w' { held = w'.held ++ copied }) (drop n (c ∷ s))
        (record {
          buf = freed.room.buf;
          size = freed.room.size;
          text = append-IsText w'.held copied freed.room.text (take-IsText n (c ∷ s) text);
        })
        (omega (arith, length-append w'.held copied, length-take n (c ∷ s), some_copied.1, below))
        (omega (arith, length-drop n (c ∷ s), some_copied.0, enough))
        (drop-IsText n (c ∷ s) text) in
    record {
      room = rest.room;
      bound = rest.bound;
      grown =
          rest.grown
          ∙ ap (λ cs. cs ++ drop n (c ∷ s)) (sym (append_assoc w'.output w'.held copied))
          ∙ append_assoc (written w') copied (drop n (c ∷ s))
          ∙ ap (λ cs. written w' ++ cs) (take-append-drop n (c ∷ s))
          ∙ ap (λ cs. cs ++ (c ∷ s)) freed.same;
    }
