-- ===== src/Wire/Shape.antt =====
-- The identifiers that `ChatWire::Uuid` accepts, by their shape.
use mathlib.Core.Bool.{and_assoc}
use mathlib.Core.List.{append-nil}
use sakura_chat_server.Prelude.{
  ℕ, zero, suc, ◌+◌, ◌-◌, ◌≤◌, ◌<◌, ◌≡◌, refl, subst, sym, ap, ◌∙◌, ◌↔◌, Text, true, false, ◌&&◌,
  [], ◌∷◌, ◌++◌, arith, length, take, drop, all, length-append, take-append-drop, length-take,
  length-drop, take_all, and_true,
}
use sakura_chat_server.Wire.{dash_at, is_hex, uuid_char, uuid_from, uuid}

-- A run of `n` hexadecimal digits.
abbrev pub Digits : ℕ → Text → Type 0
Digits n s = (length s ≡ n) × (all is_hex s ≡ true)

-- Five runs of 8, 4, 4, 4 and 12 digits, joined by dashes.
pub record IsUuid (id : Text) : Type 0 where
  pub a : Text
  pub b : Text
  pub c : Text
  pub d : Text
  pub e : Text
  pub a_digits : Digits 8 a
  pub b_digits : Digits 4 b
  pub c_digits : Digits 4 c
  pub d_digits : Digits 4 d
  pub e_digits : Digits 12 e
  pub joined : id ≡ a ++ b'-' ∷ (b ++ b'-' ∷ (c ++ b'-' ∷ (d ++ b'-' ∷ e)))

-- No dash belongs at the indices from `i` to `i + n`.
abbrev Clear : ℕ → ℕ → Type 0
Clear i n = (k : ℕ) → i ≤ k → k < i + n → dash_at k ≡ false

-- The five stretches of indices without a dash.
Clear-0 : Clear 0 8
Clear-0 k lo hi = ground arith

Clear-9 : Clear 9 4
Clear-9 k lo hi = ground arith

Clear-14 : Clear 14 4
Clear-14 k lo hi = ground arith

Clear-19 : Clear 19 4
Clear-19 k lo hi = ground arith

Clear-24 : Clear 24 12
Clear-24 k lo hi = ground arith

-- A run of the loop over indices without a dash, then the rest.
uuid_from-run :
    (n i : ℕ) (xs ys : Text)
    → Clear i n
    → length xs ≡ n
    → uuid_from i (xs ++ ys) ≡ (all is_hex xs && uuid_from (i + n) ys)
unfolding uuid_from uuid_char
uuid_from-run n i [] ys h e = let e' : i ≡ i + n = omega arith in ap (λ k. uuid_from k ys) e'
uuid_from-run zero i (x ∷ xs) ys h e = absurd (omega arith)
uuid_from-run (suc n) i (x ∷ xs) ys h e =
    let rest =
      uuid_from-run n (i + 1) xs ys (λ k l m. h k (omega arith) (omega arith)) (omega arith) in
    let shift : i + 1 + n ≡ i + suc n = omega arith in
    let here : dash_at i ≡ false = h i (omega arith) (omega arith) in
    rw (here, rest, shift) (sym (and_assoc (is_hex x) (all is_hex xs) (uuid_from (i + suc n) ys)))

-- A run taken off the front of what the loop accepted.
uuid_from-take :
    (n i : ℕ) (s : Text)
    → Clear i n
    → n ≤ length s
    → uuid_from i s ≡ true
    → Digits n (take n s) × (uuid_from (i + n) (drop n s) ≡ true)
uuid_from-take n i s h l ok =
    let whole : take n s ++ drop n s ≡ s = take-append-drop n s in
    let size : length (take n s) ≡ n = length-take n s l in
    let split : uuid_from i s ≡ (all is_hex (take n s) && uuid_from (i + n) (drop n s)) =
      ap (uuid_from i) (sym whole) ∙ uuid_from-run n i (take n s) (drop n s) h size in
    let both = and_true _ _ (sym split ∙ ok) in ((size, both.0), both.1)

-- A dash taken off the front.
uuid_from-dash :
    (i : ℕ) (s : Text)
    → dash_at i ≡ true
    → 0 < length s
    → uuid_from i s ≡ true
    → (s ≡ b'-' ∷ drop 1 s) × (uuid_from (i + 1) (drop 1 s) ≡ true)
unfolding uuid_from uuid_char
uuid_from-dash i [] d l ok = absurd (omega arith)
uuid_from-dash i (c ∷ s) d l ok = ground arith

-- One group and the dash behind it.
record Group (n i : ℕ) (s : Text) : Type 0 where
  digits : Text
  rest : Text
  is_run : Digits n digits
  split : s ≡ digits ++ b'-' ∷ rest
  left : length s ≡ suc (n + length rest)
  accepted : uuid_from (i + n + 1) rest ≡ true

uuid_from-Group :
    (n i : ℕ) (s : Text)
    → Clear i n
    → dash_at (i + n) ≡ true
    → n < length s
    → uuid_from i s ≡ true
    → Group n i s
uuid_from-Group n i s h d l ok =
    let front = uuid_from-take n i s h (omega arith) ok in
    let back : length (drop n s) ≡ length s - n = length-drop n s in
    let dash = uuid_from-dash (i + n) (drop n s) d (omega arith) front.1 in
    let tail : length (drop n s) ≡ suc (length (drop 1 (drop n s))) = ap length dash.0 in
    record {
      digits = take n s;
      rest = drop 1 (drop n s);
      is_run = front.0;
      split = sym (take-append-drop n s) ∙ ap (◌++◌ (take n s)) dash.0;
      left = omega arith;
      accepted = dash.1;
    }

uuid_from-end : (n i : ℕ) (s : Text) → Clear i n → length s ≡ n → uuid_from i s ≡ true → Digits n s
uuid_from-end n i s h l ok =
    let front = uuid_from-take n i s h (omega arith) ok in
    (l, subst (λ t. all is_hex t ≡ true) (take_all n s l) front.0.1)

assemble :
    (id : Text) (g1 : Group 8 0 id) (g2 : Group 4 9 g1.rest) (g3 : Group 4 14 g2.rest)
    (g4 : Group 4 19 g3.rest)
    → Digits 12 g4.rest
    → IsUuid id
assemble id g1 g2 g3 g4 last = record {
  a = g1.digits;
  b = g2.digits;
  c = g3.digits;
  d = g4.digits;
  e = g4.rest;
  a_digits = g1.is_run;
  b_digits = g2.is_run;
  c_digits = g3.is_run;
  d_digits = g4.is_run;
  e_digits = last;
  joined = cc (g1.split, g2.split, g3.split, g4.split);
}

uuid_sound : (id : Text) → uuid id ≡ true → IsUuid id
unfolding uuid
uuid_sound id h =
    let size : length id ≡ 36 = ground arith in
    let g1 = uuid_from-Group 8 0 id Clear-0 refl (omega arith) (ground arith) in
    let g2 = uuid_from-Group 4 9 g1.rest Clear-9 refl (omega arith) g1.accepted in
    let g3 = uuid_from-Group 4 14 g2.rest Clear-14 refl (omega arith) g2.accepted in
    let g4 = uuid_from-Group 4 19 g3.rest Clear-19 refl (omega arith) g3.accepted in
    assemble id g1 g2 g3 g4 (uuid_from-end 12 24 g4.rest Clear-24 (omega arith) g4.accepted)

-- The converse, one group at a time.
uuid_from-accepts :
    (n i : ℕ) (xs ys : Text)
    → Clear i n
    → dash_at (i + n) ≡ true
    → Digits n xs
    → uuid_from (i + n + 1) ys ≡ true
    → uuid_from i (xs ++ b'-' ∷ ys) ≡ true
unfolding uuid_from uuid_char
uuid_from-accepts n i xs ys h d x ok = uuid_from-run n i xs (b'-' ∷ ys) h x.0 ∙ ground arith

uuid_from-last : (n i : ℕ) (xs : Text) → Clear i n → Digits n xs → uuid_from i xs ≡ true
unfolding uuid_from
uuid_from-last n i xs h x =
    ap (uuid_from i) (sym (append-nil xs)) ∙ (uuid_from-run n i xs [] h x.0 ∙ ground arith)

length-IsUuid : (id : Text) → IsUuid id → length id ≡ 36
length-IsUuid id u = omega (
  arith,
  ap length u.joined,
  length-append u.a (b'-' ∷ (u.b ++ b'-' ∷ (u.c ++ b'-' ∷ (u.d ++ b'-' ∷ u.e)))),
  length-append u.b (b'-' ∷ (u.c ++ b'-' ∷ (u.d ++ b'-' ∷ u.e))),
  length-append u.c (b'-' ∷ (u.d ++ b'-' ∷ u.e)),
  length-append u.d (b'-' ∷ u.e),
)

uuid_complete : (id : Text) → IsUuid id → uuid id ≡ true
unfolding uuid
uuid_complete id u =
    let e5 = uuid_from-last 12 24 u.e Clear-24 u.e_digits in
    let e4 = uuid_from-accepts 4 19 u.d u.e Clear-19 refl u.d_digits e5 in
    let e3 = uuid_from-accepts 4 14 u.c _ Clear-14 refl u.c_digits e4 in
    let e2 = uuid_from-accepts 4 9 u.b _ Clear-9 refl u.b_digits e3 in
    let e1 = uuid_from-accepts 8 0 u.a _ Clear-0 refl u.a_digits e2 in
    let whole : uuid_from 0 id ≡ true = ap (uuid_from 0) u.joined ∙ e1 in
    ground (arith, length-IsUuid id u)

-- `ChatWire::Uuid` accepts exactly the texts of 36 bytes in the 8-4-4-4-12 shape: five runs of
-- hexadecimal digits, of either case, joined by dashes.
pub uuid-iff-IsUuid : (id : Text) → (uuid id ≡ true) ↔ IsUuid id
uuid-iff-IsUuid id = (uuid_sound id, uuid_complete id)
