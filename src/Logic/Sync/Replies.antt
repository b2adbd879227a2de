-- ===== src/Logic/Sync/Replies.antt =====
-- Which sync requests are refused, and what the others are answered (`LogicSystem::ChatSync`).
use sakura_chat_server.Prelude.{
  ℕ, ◌+◌, ◌≤◌, ◌<◌, ◌≡◌, refl, ◌⊎◌, inl, inr, Text, ℤ, is_positive, true, false, not, ◌||◌, Option,
  none, some, length, ltb, ltb→lt, Bool-cases, if_either, arith,
}
use sakura_chat_server.Wire.{body_limit, uuid}
use sakura_chat_server.Database.Sql.{Env, Conn}
use sakura_chat_server.Logic.Sync.{
  SyncRequest, SyncResult, invalid, SyncResponse, SyncJson, sync_by_id, fitting, no_request,
  sync_identified, sync_request, chat_sync,
}

module _ (env : Env) (json : SyncJson) (actor : ℤ) where
  open json use {parse, size}

  -- The session has no user, or the body is too long, or has no request with a UUID.
  pub data Unusable (body : Text) : Type 0 where
    nobody : is_positive actor ≡ false → Unusable body
    too_long : body_limit < length body → Unusable body
    no_object : parse body ≡ none → Unusable body
    unnamed : (q : SyncRequest) → parse body ≡ some q → q.request_id ≡ none → Unusable body
    misnamed :
        (q : SyncRequest) (id : Text)
        → parse body ≡ some q
        → q.request_id ≡ some id
        → uuid id ≡ false
        → Unusable body

  -- The result of the command, if it fits into a message with its identifier, and else the bare error.
  abbrev pub Fitted : Text → SyncResult → SyncResponse → Type 0
  Fitted id r out =
      let full : SyncResponse = record { result = r; request_id = some id } in
      ((size full ≤ body_limit) × (out.result ≡ r))
      ⊎ ((body_limit < size full) × (out.result ≡ invalid))

  pub data Answered (kind : ℕ) (body : Text) (c : Conn) (out : SyncResponse × Conn) : Type 0 where
    refused :
        Unusable body
        → out.0.request_id ≡ none
        → out.0.result ≡ invalid
        → out.1 ≡ c
        → Answered kind body c out
    answered :
        (q : SyncRequest) (id : Text)
        → is_positive actor ≡ true
        → length body ≤ body_limit
        → parse body ≡ some q
        → q.request_id ≡ some id
        → uuid id ≡ true
        → out.0.request_id ≡ some id
        → Fitted id (sync_by_id env json actor kind q c).0 out.0
        → out.1 ≡ (sync_by_id env json actor kind q c).1
        → Answered kind body c out

  fitting-Fitted :
      (id : Text) (r : SyncResult)
      → let out = fitting env json actor id r in (out.request_id ≡ some id) × Fitted id r out
  unfolding fitting
  fitting-Fitted id r =
      let full : SyncResponse = record { result = r; request_id = some id } in
      if_either (λ out. (out.request_id ≡ some id) × Fitted id r out) (ltb body_limit (size full))
        (record { result = invalid; request_id = some id }) full
        (λ e. (refl, inr (ltb→lt body_limit (size full) e, refl)))
        (λ e. (refl, inl (ground (arith, e), refl)))

  module _ (kind : ℕ) (body : Text) (c : Conn) (known : is_positive actor ≡ true)
      (short : length body ≤ body_limit) where
    identified-Answered :
        (q : SyncRequest) (o : Option Text)
        → parse body ≡ some q
        → q.request_id ≡ o
        → Answered kind body c (sync_identified env json actor kind q o c)
    unfolding sync_identified
    identified-Answered q none p e = refused (unnamed q p e) refl refl refl
    identified-Answered q (some id) p e =
        let (r, c') = sync_by_id env json actor kind q c in
        if_either {A = SyncResponse × Conn} (Answered kind body c) (not (uuid id))
          (no_request env json actor, c) (fitting env json actor id r, c')
          (λ bad. refused (misnamed q id p e (ground arith)) refl refl refl)
          (λ good.
            let (named, fits) = fitting-Fitted id r in
            answered q id known short p e (ground arith) named fits refl)

    request-Answered :
        (o : Option SyncRequest)
        → parse body ≡ o
        → Answered kind body c (sync_request env json actor kind o c)
    unfolding sync_request
    request-Answered none p = refused (no_object p) refl refl refl
    request-Answered (some q) p = identified-Answered q q.request_id p refl

  Unusable-tests :
      (body : Text) → not (is_positive actor) || ltb body_limit (length body) ≡ true → Unusable body
  Unusable-tests body e = elim (Bool-cases (is_positive actor)) [
    | inl known ↦ too_long (ltb→lt body_limit (length body) (ground arith))
    | inr unknown ↦ nobody unknown
  ]

  -- Every `ChatSync` gives one reply, with the id that follows the one of the message. Without a user,
  -- with a body that is too long, or without a request with a UUID it is refused without an identifier,
  -- and nothing of the connection changes. Any other request is answered under its own identifier, and
  -- the connection is as the command left it: by the result of the command if that fits into a message,
  -- and by the bare error if it does not.
  pub chat_sync-Answered :
      (kind : ℕ) (body : Text) (c : Conn)
      → let out = chat_sync env json actor kind body c in
        (out.0.0 ≡ kind + 1) × Answered kind body c (out.0.1, out.1)
  unfolding chat_sync
  chat_sync-Answered kind body c =
      if_either {A = (ℕ × SyncResponse) × Conn}
        (λ out. (out.0.0 ≡ kind + 1) × Answered kind body c (out.0.1, out.1))
        (not (is_positive actor) || ltb body_limit (length body))
        ((kind + 1, no_request env json actor), c)
        (let (r, c') = sync_request env json actor kind (parse body) c in ((kind + 1, r), c'))
        (λ e. (refl, refused (Unusable-tests body e) refl refl refl))
        (λ e.
          (refl, request-Answered kind body c (ground arith) (ground (arith, e)) (parse body) refl))
