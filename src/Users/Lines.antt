-- ===== src/Users/Lines.antt =====
-- The loop over the lines of a file, beside the bytes of the file and the lines that were written.
use mathlib.Core.List.{flatten}
use messaging_service.Prelude.{
  ℕ, zero, suc, ◌-◌, ◌≤◌, ◌<◌, ◌≡◌, ◌≢◌, refl, ap, false, Option, some, inl, inr, List, [], ◌∷◌,
  ◌++◌, Bytes, ◌==◌, Bool-cases, length, length-append, All, arith, append_cons,
}
use messaging_service.Users.{
  Input, input_of, newline, read_rounds, read_line_sys, read_lines, lines_after, lines_of,
}

-- What one call of `read_line_sys` gives on bytes `s`: a first part of `s`, not longer than the
-- buffer allows and not empty unless `s` is, and the rest of `s`.
pub record ReadsLine (room : ℕ) (s : Bytes) (r : Option Bytes × Input) : Type 0 where
  pub line : Bytes
  pub rest : Bytes
  pub result : r ≡ (some line, input_of rest)
  pub parts : line ++ rest ≡ s
  pub short : length line ≤ room
  pub progress : s ≢ [] → 0 < room → 0 < length line

read_rounds-ReadsLine : (room : ℕ) (s : Bytes) → ReadsLine room s (read_rounds room (input_of s))
unfolding read_rounds
read_rounds-ReadsLine zero s = record {
  line = [];
  rest = s;
  result = refl;
  parts = refl;
  short = omega arith;
  progress = λ _ h. absurd (omega arith);
}
read_rounds-ReadsLine (suc room) [] = record {
  line = [];
  rest = [];
  result = refl;
  parts = refl;
  short = omega arith;
  progress = λ h _. absurd (h refl);
}
read_rounds-ReadsLine (suc room) (c ∷ s) = elim (Bool-cases (c == newline)) [
  | inl e ↦ rw e (record {
    line = c ∷ [];
    rest = s;
    result = refl;
    parts = refl;
    short = omega arith;
    progress = λ _ _. omega arith;
  })
  | inr e ↦
      let ih = read_rounds-ReadsLine room s in
      rw (e, ih.result)
        (record {
          line = c ∷ ih.line;
          rest = ih.rest;
          result = refl;
          parts = ap (λ t. c ∷ t) ih.parts;
          short = omega (arith, ih.short);
          progress = λ _ _. omega arith;
        })
]

pub read_line_sys-ReadsLine :
    (max_len : ℕ) (s : Bytes) → ReadsLine (max_len - 1) s (read_line_sys max_len (input_of s))
unfolding read_line_sys
read_line_sys-ReadsLine max_len s = read_rounds-ReadsLine (max_len - 1) s

flatten_step :
    (line rest s : Bytes) (fuel : ℕ) (loop : Input → List Bytes)
    → line ++ rest ≡ s
    → 0 < length line
    → flatten (loop (input_of rest)) ≡ rest
    → flatten (lines_after (some line, input_of rest) loop) ≡ s
unfolding lines_after flatten
flatten_step [] rest s fuel loop p h e = absurd (omega arith)
flatten_step (c ∷ line) rest s fuel loop p h e = rw e p

flatten-read_lines :
    (fuel : ℕ) (s : Bytes) → length s < fuel → flatten (read_lines fuel (input_of s)) ≡ s
unfolding read_lines read_line_sys flatten
flatten-read_lines zero s h = absurd (omega arith)
flatten-read_lines (suc fuel) [] h = refl
flatten-read_lines (suc fuel) (c ∷ s) h =
    let r = read_rounds-ReadsLine 511 (c ∷ s) in
    let p = r.progress (λ e. absurd (omega (arith, ap length e))) (omega arith) in
    rw r.result (
      flatten_step r.line r.rest (c ∷ s) fuel (read_lines fuel) r.parts p (
        flatten-read_lines fuel r.rest
          (omega (arith, ap length r.parts, length-append r.line r.rest))))

-- The loop over read_line_sys reads a file to its end and loses no byte of it: the lines, one after
-- the other, are the file, whatever it holds.
pub flatten-lines_of : (s : Bytes) → flatten (lines_of s) ≡ s
unfolding lines_of
flatten-lines_of s = flatten-read_lines (suc (length s)) s (omega arith)

-- A line that fits the buffer: at most 510 bytes that are no line feed, and a line feed.
pub record IsLine (l : Bytes) : Type 0 where
  pub body : Bytes
  pub shape : l ≡ body ++ newline ∷ []
  pub plain : All (λ c. c == newline ≡ false) body
  pub fits : length body < 511

read_rounds-body :
    (room : ℕ) (body rest : Bytes)
    → All (λ c. c == newline ≡ false) body
    → length body < room
    → read_rounds room (input_of (body ++ newline ∷ rest))
      ≡ (some (body ++ newline ∷ []), input_of rest)
unfolding read_rounds
read_rounds-body zero body rest p h = absurd (omega arith)
read_rounds-body (suc room) [] rest p h = refl
read_rounds-body (suc room) (c ∷ body) rest p h =
    rw p.0 (rw (read_rounds-body room body rest p.1 (omega arith)))

lines_after-body :
    (body : Bytes) (rest : Input) (loop : Input → List Bytes)
    → lines_after (some (body ++ newline ∷ []), rest) loop ≡ (body ++ newline ∷ []) ∷ loop rest
unfolding lines_after
lines_after-body [] rest loop = refl
lines_after-body (c ∷ body) rest loop = refl

read_lines-IsLine :
    (fuel : ℕ) (ls : List Bytes)
    → All IsLine ls
    → length ls < fuel
    → read_lines fuel (input_of (flatten ls)) ≡ ls
unfolding read_lines read_line_sys flatten
read_lines-IsLine zero ls h lt = absurd (omega arith)
read_lines-IsLine (suc fuel) [] h lt = unfold read_rounds lines_after in refl
read_lines-IsLine (suc fuel) (l ∷ ls) h lt =
    let k = h.0 in
    rw k.shape (
      rw (append_cons newline k.body (flatten ls)) (
        rw (read_rounds-body 511 k.body (flatten ls) k.plain k.fits) (
          rw (lines_after-body k.body (input_of (flatten ls)) (read_lines fuel))
            (rw (read_lines-IsLine fuel ls h.1 (omega arith))))))

length-flatten : (ls : List Bytes) → All IsLine ls → length ls ≤ length (flatten ls)
unfolding flatten
length-flatten [] h = omega arith
length-flatten (l ∷ ls) h = omega (
  arith,
  length-flatten ls h.1,
  length-append l (flatten ls),
  ap length h.0.shape,
  length-append h.0.body (newline ∷ []),
)

-- Lines that fit the buffer are read back one by one.
pub lines_of-flatten : (ls : List Bytes) → All IsLine ls → lines_of (flatten ls) ≡ ls
unfolding lines_of
lines_of-flatten ls h =
    read_lines-IsLine (suc (length (flatten ls))) ls h (omega (arith, length-flatten ls h))
