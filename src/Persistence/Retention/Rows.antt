-- ===== src/Persistence/Retention/Rows.antt =====
-- How deletions for everyone change the rows of the messages (Common/src/ChatPersistence.cpp).
use sakura_chat_server.Prelude.{
  ℕ, ◌≡◌, refl, sym, ◌∙◌, ap, subst, ◌⊎◌, inl, inr, none, false, List, [], ◌∷◌, first-none, All,
  All-imp, ==_iff, ◌==◌, if_either,
}
use sakura_chat_server.Database.{Message}
use sakura_chat_server.Persistence.Deletion.{find_by_id, erase_message}

abbrev pub erased : Message → Message
erased m = record m { content = []; status = 2 }

-- A row is as it was, or erased, which it may be if its id is of a kind.
abbrev pub Step : (ℕ → Type 0) → Message → Message → Type 0
Step D m x = (x ≡ m) ⊎ ((x ≡ erased m) × D m.message_id)

abbrev pub Rows : (ℕ → Type 0) → List Message → List Message → Type 0
Rows D [] [] = Unit
Rows D [] (x ∷ xs) = ⊥
Rows D (m ∷ ms) [] = ⊥
Rows D (m ∷ ms) (x ∷ xs) = Step D m x × Rows D ms xs

-- The rows with an id are erased.
abbrev pub Gone : ℕ → List Message → Type 0
Gone id = All (λ m. m.message_id ≡ id → m ≡ erased m)

pub Rows-refl : (D : ℕ → Type 0) (ms : List Message) → Rows D ms ms
Rows-refl D [] = tt
Rows-refl D (m ∷ ms) = (inl refl, Rows-refl D ms)

pub Rows-trans :
    (D : ℕ → Type 0) (ms xs ys : List Message) → Rows D ms xs → Rows D xs ys → Rows D ms ys
Rows-trans D [] [] [] h k = tt
Rows-trans D [] [] (y ∷ ys) h k = absurd k
Rows-trans D [] (x ∷ xs) ys h k = absurd h
Rows-trans D (m ∷ ms) [] ys h k = absurd h
Rows-trans D (m ∷ ms) (x ∷ xs) [] h k = absurd k
Rows-trans D (m ∷ ms) (x ∷ xs) (y ∷ ys) (h, hs) (k, ks) = (step h k, Rows-trans D ms xs ys hs ks)
  where
    step : Step D m x → Step D x y → Step D m y
    step (inl e) (inl f) = inl (f ∙ e)
    step (inl e) (inr (f, d)) = inr (f ∙ ap erased e, subst (λ z. D z.message_id) e d)
    step (inr (e, d)) (inl f) = inr (f ∙ e, d)
    step (inr (e, d)) (inr (f, d')) = inr (f ∙ ap erased e, d)

pub Rows-imp :
    (D E : ℕ → Type 0)
    → ((id : ℕ) → D id → E id)
    → (ms xs : List Message) → Rows D ms xs
    → Rows E ms xs
Rows-imp D E f [] [] h = tt
Rows-imp D E f [] (x ∷ xs) h = absurd h
Rows-imp D E f (m ∷ ms) [] h = absurd h
Rows-imp D E f (m ∷ ms) (x ∷ xs) (h, hs) = (step h, Rows-imp D E f ms xs hs)
  where
    step : Step D m x → Step E m x
    step (inl e) = inl e
    step (inr (e, d)) = inr (e, f m.message_id d)

-- What is gone stays gone.
pub Gone-Rows :
    (D : ℕ → Type 0) (id : ℕ) (ms xs : List Message) → Gone id ms → Rows D ms xs → Gone id xs
Gone-Rows D id [] [] g h = tt
Gone-Rows D id [] (x ∷ xs) g h = absurd h
Gone-Rows D id (m ∷ ms) [] g h = absurd h
Gone-Rows D id (m ∷ ms) (x ∷ xs) (g, gs) (h, hs) = (step h, Gone-Rows D id ms xs gs hs)
  where
    step : Step D m x → x.message_id ≡ id → x ≡ erased x
    step (inl e) i = e ∙ g (ap (λ z. z.message_id) (sym e) ∙ i) ∙ ap erased (sym e)
    step (inr (e, d)) i = e ∙ ap erased (sym e)

pub erase_message-Rows : (id : ℕ) (ms : List Message) → Rows (λ x. x ≡ id) ms (erase_message id ms)
unfolding erase_message
erase_message-Rows id [] = tt
erase_message-Rows id (m ∷ ms) = (
  if_either (Step (λ x. x ≡ id) m) (m.message_id == id) (erased m) m
      (λ e. inr (refl, (==_iff m.message_id id).0 e)) (λ _. inl refl),
  erase_message-Rows id ms,
)

pub erase_message-Gone : (id : ℕ) (ms : List Message) → Gone id (erase_message id ms)
unfolding erase_message
erase_message-Gone id [] = tt
erase_message-Gone id (m ∷ ms) = (
  if_either {A = Message} (λ x. x.message_id ≡ id → x ≡ erased x) (m.message_id == id) (erased m) m
      (λ _ _. refl) (λ e i. absurd (let t = (==_iff m.message_id id).1 i in cc)),
  erase_message-Gone id ms,
)

pub absent-Gone : (id : ℕ) (ms : List Message) → find_by_id id ms ≡ none → Gone id ms
unfolding find_by_id
absent-Gone id ms e =
    All-imp (λ m. (m.message_id == id) ≡ false) (λ m. m.message_id ≡ id → m ≡ erased m)
      (λ m f i. absurd (let t = (==_iff m.message_id id).1 i in cc)) ms
      (first-none (λ m. m.message_id == id) ms e)
