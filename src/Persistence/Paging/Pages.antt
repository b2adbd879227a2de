-- ===== src/Persistence/Paging/Pages.antt =====
-- The pages that `DeletionEvents` and `ChatConversations` (Common/src/ChatPersistence.cpp) reply.
use sakura_chat_server.Prelude.{
  ℕ, suc, ◌+◌, ◌≤◌, ◌⊎◌, inl, inr, ◌≢◌, none-ne-some, sym, ℤ, Bool, true, false, not, ◌||◌, Option,
  none, some, List, [], ◌∷◌, ◌++◌, length, is_empty, leb, ltb, is_positive, if◌then◌else◌, ◌≡◌,
  refl, ap, ◌∙◌, arith, length-append,
}
use sakura_chat_server.Database.{Db}
use sakura_chat_server.Database.Sql.{Env, ◌>>=◌, pure, statement, with_lease, catching}
use sakura_chat_server.Database.Triple.{idle}
use sakura_chat_server.Persistence.{chat_data_invalid, chat_database_failed}
use sakura_chat_server.Persistence.Paging.{
  Page, Paged, EventItem, ConversationItem, first_page, with_item, gather, last_cursor,
  event_cursor, event_rows, conversation_cursor, conversation_rows, no_page, send_page,
  deletion_events, chat_conversations,
}

-- A page that begins with the items of `start` and goes on with the first of the rows, the next
-- cursor being that of its last item, and with more to come exactly when rows are left.
pub record Cut {A : Type 0} (cursor : A → ℕ) (start out : Page A) (rows : List A) : Type 0 where
  pub kept : List A
  pub rest : List A
  pub split : rows ≡ kept ++ rest
  pub items : out.items ≡ start.items ++ kept
  pub next : out.next ≡ last_cursor cursor start.next kept
  pub more : out.has_more ≡ not (is_empty rest)
  pub few : length out.items ≤ 20

append_nil : {A : Type 0} → (xs : List A) → xs ≡ xs ++ []
append_nil [] = refl
append_nil (x ∷ xs) = ap (◌∷◌ x) (append_nil xs)

append_snoc :
    {A : Type 0} → (xs : List A) (y : A) (zs : List A) → (xs ++ y ∷ []) ++ zs ≡ xs ++ y ∷ zs
append_snoc [] y zs = refl
append_snoc (x ∷ xs) y zs = ap (◌∷◌ x) (append_snoc xs y zs)

room : (n : ℕ) (b : Bool) → (leb 20 n || b) ≡ false → suc n ≤ 20
room n b h = ground arith

module _ {A : Type 0} (cursor : A → ℕ) (limit : ℕ) (size : Page A → ℕ) where
  extended :
      {r : Page A} {item : A} {rows : List A} {out : Page A}
      → Cut cursor (with_item cursor limit size r item) out rows
      → Cut cursor r out (item ∷ rows)
  unfolding with_item last_cursor
  extended {r} {item} c = record {
    kept = item ∷ c.kept;
    rest = c.rest;
    split = ap (◌∷◌ item) c.split;
    items = c.items ∙ append_snoc r.items item c.kept;
    next = c.next;
    more = c.more;
    few = c.few;
  }

  -- Whatever the size of the items, the loop over the rows adds the first of them to the reply, up to
  -- 20 in all, and skips none: the cursor is that of the last item of the page, and `has_more` is
  -- set exactly when rows are left.
  pub gather-Cut :
      (rows : List A) (r : Page A)
      → length r.items ≤ 20
      → r.has_more ≡ false
      → Cut cursor r (gather cursor limit size rows r) rows
  unfolding gather with_item last_cursor
  gather-Cut [] r few none_more = record {
    kept = [];
    rest = [];
    split = refl;
    items = append_nil r.items;
    next = refl;
    more = none_more;
    few = few;
  }
  gather-Cut (item ∷ rows) r few none_more =
      go (leb 20 (length r.items) || ltb limit (size (with_item cursor limit size r item))) refl
        λ few'. gather-Cut rows (with_item cursor limit size r item) few' none_more
    where
      go :
          (b : Bool)
          → (leb 20 (length r.items) || ltb limit (size (with_item cursor limit size r item))) ≡ b
          → (length (r.items ++ item ∷ []) ≤ 20
              → Cut cursor
                  (with_item cursor limit size r item)
                  (gather cursor limit size rows (with_item cursor limit size r item))
                  rows)
          → Cut cursor r
              (if b
                then record r { has_more = true }
                else gather cursor limit size rows (with_item cursor limit size r item))
              (item ∷ rows)
      go true w next = record {
        kept = [];
        rest = item ∷ rows;
        split = refl;
        items = append_nil r.items;
        next = refl;
        more = refl;
        few = few;
      }
      go false w next =
          extended
            (next (omega (arith, length-append r.items (item ∷ []), room (length r.items) _ w)))

-- A database error that stops the scan: no connection is lent, or the statement fails.
abbrev pub Stopped : Env → ℕ → Type 0
Stopped env n = (env.leases n ≡ false) ⊎ (env.fault (n + 1) ≢ none)

-- An error for a reason, or a page of the rows of the tables from the cursor on.
unfoldable pub Sent : {A : Type 0} → (A → ℕ) → ℕ → List A → Type 0 → Paged A → Type 0
Sent {A} cursor after rows Reason reply =
    (Reason × (reply.error ≢ 0))
    ⊎ ((p : Page A) × (reply.error ≡ 0)
        × (reply.page ≡ some p)
        × Cut cursor (first_page after) p rows)

module _ {A : Type 0} (cursor : A → ℕ) (after : ℕ) (env : Env) (scan : Db → List A)
    (pages : List A → Page A)
    (cut : (rows : List A) → Cut cursor (first_page after) (pages rows) rows) where
  send_page-Sent :
      (d : Db) (n : ℕ) (Reason : Type 0)
      → (Stopped env n → Reason)
      → Sent cursor after
          (scan (env.interfere (n + 1) d))
          Reason
          (catching
            (with_lease env (send_page env scan pages))
            (no_page chat_database_failed)
            (idle d n)).0
  unfolding Sent catching with_lease send_page statement ◌>>=◌ pure
  send_page-Sent d n Reason why = go (env.leases n) (env.fault (n + 1)) refl refl
    where
      go :
          (b : Bool) (o : Option ℕ)
          → env.leases n ≡ b
          → env.fault (n + 1) ≡ o
          → Sent cursor after
              (scan (env.interfere (n + 1) d))
              Reason
              (catching
                (with_lease env (send_page env scan pages))
                (no_page chat_database_failed)
                (idle d n)).0
      go false o w v = rw (catching, w) (inl (why (inl w), λ e. absurd (omega arith)))
      go true none w v =
          rw (catching, w, statement, v)
            (inr (pages (scan (env.interfere (n + 1) d)), refl, refl, cut _))
      go true (some code) w v =
          rw (catching, w, statement, v)
            (inl (why (inr (λ e. none-ne-some code (sym e ∙ v))), λ e. absurd (omega arith)))

-- The reply of `DeletionEvents`, whichever of its calls fail and whatever others commit: an error, only
-- when the user is invalid or the database fails, or else a page with the first of the scanned
-- events after the cursor, up to 20, without a gap, that says whether more of the scan is left and
-- from where to go on.
pub deletion_events-Sent :
    (env : Env) (size : Page EventItem → ℕ) (actor : ℤ) (after : ℕ) (d : Db) (n : ℕ)
    → Sent event_cursor after
        (event_rows actor after (env.interfere (n + 1) d))
        ((is_positive actor ≡ false) ⊎ Stopped env n)
        (deletion_events env size actor after (idle d n)).0
unfolding deletion_events Sent
deletion_events-Sent env size actor after d n = go (is_positive actor) refl
  where
    go :
        (b : Bool)
        → is_positive actor ≡ b
        → Sent event_cursor after
            (event_rows actor after (env.interfere (n + 1) d))
            ((is_positive actor ≡ false) ⊎ Stopped env n)
            (if not b
              then (no_page chat_data_invalid, idle d n)
              else catching
                  (with_lease env (
                    send_page env
                      (event_rows actor after)
                      (λ rows. gather event_cursor 1400 size rows (first_page after))))
                  (no_page chat_database_failed)
                  (idle d n)).0
    go false w = inl (inl w, λ e. absurd (omega arith))
    go true w =
        send_page-Sent event_cursor after env (event_rows actor after)
          (λ rows. gather event_cursor 1400 size rows (first_page after))
          (λ rows. gather-Cut event_cursor 1400 size rows (first_page after) (omega arith) refl) d n
          _ inr

-- The reply of `ChatConversations`, whichever of its calls fail and whatever others commit: an error,
-- only when the database fails, or else a page with the first of the scanned conversations after
-- the cursor, up to 20, without a gap, that says whether more of the scan is left and from where to
-- go on.
pub chat_conversations-Sent :
    (env : Env) (size : Page ConversationItem → ℕ) (actor : ℤ) (after : ℕ) (d : Db) (n : ℕ)
    → Sent conversation_cursor after
        (conversation_rows actor after (env.interfere (n + 1) d))
        (Stopped env n)
        (chat_conversations env size actor after (idle d n)).0
unfolding chat_conversations Sent
chat_conversations-Sent env size actor after d n =
    send_page-Sent conversation_cursor after env (conversation_rows actor after)
      (λ rows. gather conversation_cursor 1450 size rows (first_page after))
      (λ rows. gather-Cut conversation_cursor 1450 size rows (first_page after) (omega arith) refl)
      d n _ (λ why. why)
