-- ===== src/Persistence/History/Sent.antt =====
-- The pages that `ChatHistory` (Common/src/ChatPersistence.cpp) replies.
use sakura_chat_server.Prelude.{
  ℕ, ◌+◌, ◌≡◌, ◌≢◌, ◌⊎◌, inl, inr, refl, sym, ap, ◌∙◌, none-ne-some, ℤ, Bool, true, false, ◌||◌,
  Option, none, some, List, [], ◌∷◌, ◌++◌, map, length, is_empty, leb, ltb, if◌then◌else◌, arith,
}
use sakura_chat_server.Database.{Db}
use sakura_chat_server.Database.Sql.{Env, ◌>>=◌, pure, statement, with_lease, catching}
use sakura_chat_server.Database.Triple.{idle}
use sakura_chat_server.Persistence.{chat_data_invalid}
use sakura_chat_server.Persistence.Paging.{Page, Paged, first_page, with_item, gather, no_page}
use sakura_chat_server.Persistence.Paging.Pages.{Cut, gather-Cut, Stopped}
use sakura_chat_server.Persistence.History.{
  HistoryItem, HistoryJson, history_cursor, history_rows, shorten, gather_history, chat_history,
}

abbrev pub found_page : Page HistoryItem → Paged HistoryItem
found_page p = record { error = 0; page = some p }

-- The first of the items is alone too large for a reply.
abbrev pub TooLarge : (Page HistoryItem → ℕ) → ℕ → List HistoryItem → Type 0
TooLarge size after [] = ⊥
TooLarge size after (item ∷ rest) =
    ltb 1450 (size (with_item history_cursor 1450 size (first_page after) item)) ≡ true

not_empty : {A : Type 0} (xs : List A) (a : A) → is_empty (xs ++ a ∷ []) ≡ false
not_empty [] a = refl
not_empty (x ∷ xs) a = refl

module _ (size : Page HistoryItem → ℕ) where
  -- After the first message the loop is that of the other pages.
  gather_history-gather :
      (rows : List HistoryItem) (r : Page HistoryItem)
      → is_empty r.items ≡ false
      → gather_history size rows r ≡ found_page (gather history_cursor 1450 size rows r)
  unfolding gather_history gather with_item
  gather_history-gather [] r h = refl
  gather_history-gather (item ∷ rest) r h =
      go (leb 20 (length r.items) || ltb 1450 (size candidate))
        (gather_history-gather rest candidate (not_empty r.items item))
    where
      candidate : Page HistoryItem
      candidate = with_item history_cursor 1450 size r item

      go :
          (b : Bool)
          → gather_history size rest candidate
            ≡ found_page (gather history_cursor 1450 size rest candidate)
          → (if b
              then (if is_empty r.items
                  then no_page chat_data_invalid
                  else found_page (record r { has_more = true }))
              else gather_history size rest candidate)
            ≡ found_page (
                if b
                then record r { has_more = true }
                else gather history_cursor 1450 size rest candidate)
      go true next =
          ap
            (λ b.
              if b then no_page chat_data_invalid else found_page (record r { has_more = true }))
            h
      go false next = next

  -- Only a first message that does not fit makes the difference.
  first_page-gather :
      (rows : List HistoryItem) (after : ℕ)
      → (TooLarge size after rows
          × (gather_history size rows (first_page after) ≡ no_page chat_data_invalid))
        ⊎ (gather_history size rows (first_page after)
            ≡ found_page (gather history_cursor 1450 size rows (first_page after)))
  unfolding gather_history gather with_item
  first_page-gather [] after = inr refl
  first_page-gather (item ∷ rest) after =
      go (ltb 1450 (size candidate)) refl (gather_history-gather rest candidate refl)
    where
      candidate : Page HistoryItem
      candidate = with_item history_cursor 1450 size (first_page after) item

      go :
          (b : Bool)
          → ltb 1450 (size candidate) ≡ b
          → gather_history size rest candidate
            ≡ found_page (gather history_cursor 1450 size rest candidate)
          → let out : Paged HistoryItem =
              if b then no_page chat_data_invalid else gather_history size rest candidate in
            ((ltb 1450 (size candidate) ≡ true) × (out ≡ no_page chat_data_invalid))
            ⊎ (out
                ≡ found_page (
                    if b
                    then record { items = []; next = after; has_more = true }
                    else gather history_cursor 1450 size rest candidate))
      go true e next = inl (e, refl)
      go false e next = inr next

-- An error for a reason, or a page of the messages in the tables from the cursor on.
pub data HistorySent (Reason : Type 0) (after : ℕ) (rows : List HistoryItem)
    (reply : Paged HistoryItem) : Type 0 where
  refused : Reason → reply.page ≡ none → reply.error ≢ 0 → HistorySent Reason after rows reply
  sent :
      (p : Page HistoryItem)
      → reply ≡ found_page p
      → Cut history_cursor (first_page after) p rows
      → HistorySent Reason after rows reply

page-HistorySent :
    (json : HistoryJson) (after : ℕ) (rows : List HistoryItem) (Other : Type 0)
    → HistorySent
        (Other ⊎ TooLarge json.size after rows)
        after
        rows
        (gather_history json.size rows (first_page after))
page-HistorySent json after rows Other = elim (first_page-gather json.size rows after) [
  | inl (large, e) ↦ refused (inr large) (ap (λ p. p.page) e) (λ n. absurd (ground arith))
  | inr e ↦
      sent _ e (gather-Cut history_cursor 1450 json.size rows (first_page after) (omega arith) refl)
]

-- The cases of the calls, for what is made of a database error.
history-HistorySent :
    (env : Env) (json : HistoryJson) (actor peer : ℤ) (after : ℕ) (d : Db) (n : ℕ) (Other : Type 0)
    → (Stopped env n → Other)
    → let rows : List HistoryItem =
        map (shorten json.row_size) (history_rows actor peer after (env.interfere (n + 1) d)) in
      HistorySent
        (Other ⊎ TooLarge json.size after rows)
        after
        rows
        (chat_history env json actor peer after (idle d n)).0
unfolding chat_history catching with_lease statement ◌>>=◌ pure
history-HistorySent env json actor peer after d n Other why =
    go (env.leases n) (env.fault (n + 1)) refl refl
  where
    rows : List HistoryItem
    rows = map (shorten json.row_size) (history_rows actor peer after (env.interfere (n + 1) d))

    go :
        (b : Bool) (o : Option ℕ)
        → env.leases n ≡ b
        → env.fault (n + 1) ≡ o
        → HistorySent
            (Other ⊎ TooLarge json.size after rows)
            after
            rows
            (chat_history env json actor peer after (idle d n)).0
    go false o w v =
        let why' : Other = why (inl w) in
        rw (chat_history, catching, w) (refused (inl why') refl (λ e. absurd (omega arith)))
    go true none w v =
        rw (chat_history, catching, w, statement, v) (page-HistorySent json after rows Other)
    go true (some code) w v =
        let why' : Other = why (inr (λ e. none-ne-some code (sym e ∙ v))) in
        rw (chat_history, catching, w, statement, v)
          (refused (inl why') refl (λ e. absurd (omega arith)))

-- The reply of `ChatHistory`, whichever of its calls fail and whatever others commit: an error, only
-- when the database fails or the first message of the scan is alone too large, or else a page with the
-- first of the scanned messages after the cursor, up to 20, without a gap, that says whether more of the
-- scan is left and from where to go on.
pub chat_history-HistorySent :
    (env : Env) (json : HistoryJson) (actor peer : ℤ) (after : ℕ) (d : Db) (n : ℕ)
    → let rows : List HistoryItem =
        map (shorten json.row_size) (history_rows actor peer after (env.interfere (n + 1) d)) in
      HistorySent
        (Stopped env n ⊎ TooLarge json.size after rows)
        after
        rows
        (chat_history env json actor peer after (idle d n)).0
chat_history-HistorySent env json actor peer after d n =
    history-HistorySent env json actor peer after d n (Stopped env n) (λ why. why)
