-- ===== src/Session/Pieces.antt =====
-- The pieces in which a read completes, and what they leave in the buffer.
use mathlib.Core.List.{append_assoc, append-nil}
use sakura_chat_server.Prelude.{
  ℕ, zero, suc, ◌+◌, ◌≤◌, ◌<◌, ◌≡◌, refl, sym, ap, ◌∙◌, false, List, [], ◌∷◌, ◌++◌, arith, length,
  take, leb, length-append, All, if◌then◌else◌,
}
use sakura_chat_server.Wire.Frame.{write_at}
use sakura_chat_server.Session.Calls.{Phase, read_some}
use sakura_chat_server.Session.{Session, Outcome, on_read, on_full}

-- The pieces that the socket hands over, each at the offset that the one before left.
pub feed : Phase → ℕ → ℕ → ℕ → Session → List (List ℕ) → Outcome
feed phase total now k s [] = (s, [])
feed phase total now k s (c ∷ cs) =
    let out = on_read phase k total s false c now in
    let rest = feed phase total now (k + length c) out.0 cs in
    if leb total (k + length c) then out else rest

abbrev pub joined : List (List ℕ) → List ℕ
joined [] = []
joined (c ∷ cs) = c ++ joined cs

abbrev pub AllNonempty : List (List ℕ) → Type 0
AllNonempty = All (λ c. 0 < length c)

pub length-write_at : (i : ℕ) (bs xs : List ℕ) → length (write_at i bs xs) ≡ length xs
unfolding write_at
length-write_at _ _ [] = refl
length-write_at zero [] (x ∷ xs) = refl
length-write_at zero (b ∷ bs) (x ∷ xs) = ap suc (length-write_at zero bs xs)
length-write_at (suc i) bs (x ∷ xs) = ap suc (length-write_at i bs xs)

-- What stands before the end of a write: the old bytes, then the new ones.
pub take-write_at :
    (n i : ℕ) (bs xs : List ℕ)
    → n ≡ i + length bs
    → n ≤ length xs
    → take n (write_at i bs xs) ≡ take i xs ++ bs
unfolding write_at
take-write_at zero zero [] xs e h = refl
take-write_at (suc n) zero [] xs e h = absurd (omega arith)
take-write_at zero zero (b ∷ bs) xs e h = absurd (omega arith)
take-write_at (suc n) zero (b ∷ bs) [] e h = absurd (omega arith)
take-write_at (suc n) zero (b ∷ bs) (x ∷ xs) e h =
    ap (◌∷◌ b) (take-write_at n zero bs xs (omega arith) (omega arith))
take-write_at zero (suc i) bs xs e h = absurd (omega arith)
take-write_at (suc n) (suc i) bs [] e h = absurd (omega arith)
take-write_at (suc n) (suc i) bs (x ∷ xs) e h =
    ap (◌∷◌ x) (take-write_at n i bs xs (omega arith) (omega arith))

-- A session after reads that filled its buffer.
abbrev pub with_buffer : Session → List ℕ → Session
with_buffer s buffer = record s { read_buffer = buffer }

pub record Filled (phase : Phase) (total now : ℕ) (s : Session) (bytes : List ℕ) (out : Outcome)
    : Type 0 where
  pub buffer : List ℕ
  pub room : length buffer ≡ length s.read_buffer
  pub is_prefix : take total buffer ≡ bytes
  pub handled : out ≡ on_full phase (with_buffer s buffer) false total now

-- One piece that is not the last one, and the last one.
on_read-more :
    (phase : Phase) (total now k : ℕ) (s : Session) (c : List ℕ)
    → k + length c < total
    → on_read phase k total s false c now
      ≡ (with_buffer s (write_at k c s.read_buffer), read_some phase (k + length c) total ∷ [])
unfolding on_read
on_read-more phase total now k s c h = ground arith

on_read-last :
    (phase : Phase) (total now k : ℕ) (s : Session) (c : List ℕ)
    → k + length c ≡ total
    → on_read phase k total s false c now
      ≡ on_full phase (with_buffer s (write_at k c s.read_buffer)) false total now
unfolding on_read
on_read-last phase total now k s c h = ground arith

feed-last :
    (phase : Phase) (total now k : ℕ) (s : Session) (c : List ℕ) (cs : List (List ℕ))
    → k + length c ≡ total
    → feed phase total now k s (c ∷ cs)
      ≡ on_full phase (with_buffer s (write_at k c s.read_buffer)) false total now
unfolding feed
feed-last phase total now k s c cs h = ground (arith, on_read-last phase total now k s c h)

feed-more :
    (phase : Phase) (total now k : ℕ) (s : Session) (c : List ℕ) (cs : List (List ℕ))
    → k + length c < total
    → feed phase total now k s (c ∷ cs)
      ≡ feed phase total now (k + length c) (with_buffer s (write_at k c s.read_buffer)) cs
unfolding feed
feed-more phase total now k s c cs h = rw (on_read-more phase total now k s c h) (ground arith)

pub feed-Filled :
    (phase : Phase) (total now k : ℕ) (s : Session) (c : List ℕ) (cs : List (List ℕ))
    → AllNonempty cs
    → k + length (c ++ joined cs) ≡ total
    → total ≤ length s.read_buffer
    → Filled phase total now s
        (take k s.read_buffer ++ (c ++ joined cs))
        (feed phase total now k s (c ∷ cs))
feed-Filled phase total now k s c [] ne e fits =
    let e' : k + length c ≡ total = omega (arith, length-append c []) in
    record {
      buffer = write_at k c s.read_buffer;
      room = length-write_at k c s.read_buffer;
      is_prefix =
          take-write_at total k c s.read_buffer (sym e') fits
          ∙ ap (◌++◌ (take k s.read_buffer)) (sym (append-nil c));
      handled = feed-last phase total now k s c [] e';
    }
feed-Filled phase total now k s c (d ∷ cs) ne e fits =
    let size = length-append c (joined (d ∷ cs)) in
    let size' = length-append d (joined cs) in
    let less : k + length c < total = omega (arith, ne.0) in
    let t = with_buffer s (write_at k c s.read_buffer) in
    let room : length t.read_buffer ≡ length s.read_buffer = length-write_at k c s.read_buffer in
    let rest = feed-Filled phase total now (k + length c) t d cs ne.1 (omega arith) (omega arith) in
    let front : take (k + length c) t.read_buffer ≡ take k s.read_buffer ++ c =
      take-write_at (k + length c) k c s.read_buffer refl (omega arith) in
    record {
      buffer = rest.buffer;
      room = rest.room ∙ room;
      is_prefix =
          rest.is_prefix
          ∙ (ap (λ p. p ++ joined (d ∷ cs)) front
              ∙ append_assoc (take k s.read_buffer) c (joined (d ∷ cs)));
      handled = feed-more phase total now k s c (d ∷ cs) less ∙ rest.handled;
    }
