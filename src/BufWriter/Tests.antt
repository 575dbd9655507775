-- ===== src/BufWriter/Tests.antt =====
-- A buffer of two characters, a string that it does not hold, and a reader of three characters at a time.
use jemalloc.Base.{
  ℕ, ◌≡◌, sym, arith, true, List, [], ◌∷◌, ◌++◌, min, take, drop, take-append-drop, length-take,
}
use jemalloc.BufWriter.{buf_writer_init, buf_writer_terminate, buf_writer_pipe}
use jemalloc.BufWriter.Output.{IsText, AreTexts, concat}
use jemalloc.BufWriter.Pipe.{IsReader}
use jemalloc.BufWriter.Session.{write_strings, writer_loses_nothing}

abbrev strings : List (List ℕ)
strings = (97 ∷ 98 ∷ 99 ∷ 100 ∷ 101 ∷ []) ∷ (102 ∷ []) ∷ []

strings-AreTexts : AreTexts strings
unfolding AreTexts IsText
strings-AreTexts = (
  (omega arith, (omega arith, (omega arith, (omega arith, (omega arith, _))))),
  ((omega arith, _), _),
)

abbrev input : List ℕ
input = 103 ∷ 104 ∷ 105 ∷ 106 ∷ 107 ∷ []

input-IsText : IsText input
unfolding IsText
input-IsText = (omega arith, (omega arith, (omega arith, (omega arith, (omega arith, _)))))

abbrev read_three : List ℕ → ℕ → List ℕ × List ℕ
read_three left limit = (drop (min limit 3) left, take (min limit 3) left)

read_three-IsReader : IsReader read_three (λ left. left)
read_three-IsReader = record {
  next = λ left limit. sym (take-append-drop (min limit 3) left);
  limited = λ left limit. omega (arith, length-take (min limit 3) left);
  progress =
      λ left limit room some_left. omega (arith, length-take (min limit 3) left, room, some_left);
}

writer_loses_nothing_example :
    ((buf_writer_terminate (write_strings (buf_writer_init (10 ∷ []) true true 3).0 strings)).output
      ≡ (10 ∷ []) ++ concat strings)
    × ((buf_writer_pipe read_three 6 (buf_writer_init (10 ∷ []) true true 3).0 input).output
        ≡ (10 ∷ []) ++ input)
writer_loses_nothing_example =
    writer_loses_nothing read_three (λ left. left) input 6 (10 ∷ []) true true 3 strings
      (omega arith) strings-AreTexts read_three-IsReader (omega arith) input-IsText
