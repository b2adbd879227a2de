-- ===== src/Logic/Sync/Numbers.antt =====
-- Cursors as texts: how a number is printed, and read back (ChatServer/src/LogicSystem.cpp).
use sakura_chat_server.Prelude.{
  ℕ, zero, suc, ◌+◌, ◌-◌, ◌*◌, ◌/◌, ◌%◌, ◌^◌, ◌≤◌, ◌<◌, ◌≡◌, refl, ap, ◌∙◌, Text, true, false, ◌&&◌,
  some, [], ◌∷◌, length, all, is_empty, ltb, if◌then◌else◌, if_either, arith,
}
use sakura_chat_server.Status.{is_digit}
use sakura_chat_server.Logic.Login.{leading_value}
use sakura_chat_server.Logic.Sync.{number_text}

-- `std::to_string` of a `uint64_t`: the digits of a number before a text, for at most so many digits.
unfoldable pub digits_of : ℕ → ℕ → Text → Text
digits_of zero n out = out
digits_of (suc k) n out =
    let more = digits_of k (n / 10) ((b'0' + n % 10) ∷ out) in
    if ltb n 10 then (b'0' + n) ∷ out else more

unfoldable pub to_string : ℕ → Text
unfolding digits_of
to_string n = digits_of 20 n []

-- What holds of the digits: the value of the text, its length, and that all are digits.
record Printed (k n : ℕ) (out text : Text) : Type 0 where
  value : leading_value 0 text ≡ leading_value n out
  short : length text ≤ length out + k
  digits : all is_digit text ≡ all is_digit out
  some_digit : is_empty text ≡ false

digit : (d : ℕ) → d < 10 → is_digit (b'0' + d) ≡ true
digit d h = ground arith

lead_step :
    (acc d : ℕ) (out : Text)
    → d < 10
    → leading_value acc ((b'0' + d) ∷ out) ≡ leading_value (acc * 10 + d) out
unfolding leading_value
lead_step acc d out h =
    ap (λ b. if b then leading_value (acc * 10 + (b'0' + d - b'0')) out else acc) (digit d h)
    ∙ ap (λ m. leading_value m out) (omega arith)

one_digit : (k n : ℕ) (out : Text) → n < 10 → Printed (suc k) n out ((b'0' + n) ∷ out)
one_digit k n out h = record {
  value = lead_step 0 n out h ∙ ap (λ m. leading_value m out) (omega arith);
  short = omega arith;
  digits = ap (λ b. b && all is_digit out) (digit n h);
  some_digit = refl;
}

tenth_lt : (n m : ℕ) → n < 10 * m → n / 10 < m
tenth_lt n m h = omega arith

digits_of-Printed :
    (k n : ℕ) (out : Text) → n < 10 ^ suc k → Printed (suc k) n out (digits_of (suc k) n out)
unfolding digits_of
digits_of-Printed zero n out h =
    if_either (Printed 1 n out) (ltb n 10) _ _ (λ e. one_digit 0 n out (omega (arith, h)))
      (λ e. absurd (ground arith))
digits_of-Printed (suc k) n out h =
    let last : ℕ = b'0' + n % 10 in
    let small : n / 10 < 10 ^ suc k = tenth_lt n (10 ^ suc k) (grind arith) in
    if_either (Printed (suc (suc k)) n out) (ltb n 10) _ _
      (λ e. one_digit (suc k) n out (ground arith))
      λ e.
        let p = digits_of-Printed k (n / 10) (last ∷ out) small in
        record {
          value =
              p.value
              ∙ lead_step (n / 10) (n % 10) out (omega arith)
              ∙ ap (λ m. leading_value m out) (omega arith);
          short = omega (arith, p.short);
          digits = p.digits ∙ ap (λ b. b && all is_digit out) (digit (n % 10) (omega arith));
          some_digit = p.some_digit;
        }

number_text-Printed : (n : ℕ) (t : Text) → Printed 20 n [] t → n < 2 ^ 64 → number_text t ≡ some n
unfolding number_text leading_value
number_text-Printed n t p h =
    let v : leading_value 0 t ≡ n = p.value in
    let e : is_empty t ≡ false = p.some_digit in
    let l : length t ≤ 20 = p.short in
    let d : all is_digit t ≡ true = p.digits in ground (arith, v, e, l, d)

-- Every `uint64_t` is read back from its print.
pub number_text-to_string : (n : ℕ) → n < 2 ^ 64 → number_text (to_string n) ≡ some n
unfolding to_string
number_text-to_string n h =
    number_text-Printed n (to_string n) (digits_of-Printed 19 n [] (omega (arith, h))) h
