-- ===== src/Logic/FriendList/Cut.antt =====
-- Which friends a page has, where it ends, and how the next is asked for.
use mathlib.Core.List.{append_assoc, append-nil}
use sakura_chat_server.Prelude.{
  ℕ, ◌<◌, ◌≤◌, ◌≡◌, refl, sym, ap, ◌∙◌, subst, ◌⊎◌, inl, inr, ℤ, Bool, true, false, not, ◌&&◌,
  Option, some, List, [], ◌∷◌, ◌++◌, is_empty, ltb, ltb→lt, ◌==◌, if_either, arith,
}
use sakura_chat_server.Wire.{body_limit}
use sakura_chat_server.Persistence.{chat_data_invalid, chat_database_failed}
use sakura_chat_server.Accounts.Friends.{FriendInfo, FriendPageResult}
use sakura_chat_server.Logic.Handlers.{
  ChatState, Parts, Run, ◌>>=◌, give, on_conn, Profile, hidden, redact_profile,
}
use sakura_chat_server.Logic.FriendList.{
  FriendItem, FriendListResponse, FriendJson, friend_profile, with_friend, cut_off, with_more,
  add_friends, list_page,
}

-- The profile of a friend, shown or hidden.
abbrev pub OwnProfile : FriendInfo → Profile → Type 0
OwnProfile f p = (p ≡ friend_profile f) ⊎ (p ≡ hidden (friend_profile f))

-- An item is what was read of one friend.
pub record ItemOf (f : FriendInfo) (i : FriendItem) : Type 0 where
  pub uid : i.uid ≡ f.uid
  pub name : i.name ≡ f.name
  pub remark : i.remark ≡ f.remark
  pub profile : OwnProfile f i.profile

abbrev pub Shows : List FriendInfo → List FriendItem → Type 0
Shows [] [] = Unit
Shows [] (i ∷ is) = ⊥
Shows (f ∷ fs) [] = ⊥
Shows (f ∷ fs) (i ∷ is) = ItemOf f i × Shows fs is

-- The uid of the last friend, or the one before the page.
abbrev pub last_uid : Option ℤ → List FriendInfo → Option ℤ
last_uid u [] = u
last_uid u (f ∷ rest) = last_uid (some f.uid) rest

module _ (json : FriendJson) where
  -- The response with one more friend does not fit into a message.
  pub record Over (r : FriendListResponse) (f : FriendInfo) : Type 0 where
    pub shown : Profile
    pub own : OwnProfile f shown
    pub large : body_limit < json.size (with_friend r f shown)

  -- How a page ends: with all the friends that were read, and with what the read says of more; before
  -- a friend that would not fit, with more to come; or as an error, if that is the first.
  pub data Ending (more : Bool) (left : List FriendInfo) (before r : FriendListResponse)
      : Type 0 where
    all_sent : left ≡ [] → r.error ≡ 0 → r.has_more ≡ more → Ending more left before r
    full :
        (f : FriendInfo) (later : List FriendInfo)
        → left ≡ f ∷ later
        → Over before f
        → is_empty r.friend_list ≡ false
        → r.error ≡ 0
        → r.has_more ≡ true
        → Ending more left before r
    none_fits :
        (f : FriendInfo) (later : List FriendInfo)
        → left ≡ f ∷ later
        → Over before f
        → is_empty r.friend_list ≡ true
        → r.error ≡ chat_data_invalid
        → r.has_more ≡ false
        → Ending more left before r

  -- The response to which the next friend was to be added.
  abbrev pub grown : FriendListResponse → FriendListResponse → FriendListResponse
  grown r out = record r { next_uid = out.next_uid; friend_list = out.friend_list }

  -- What the loop makes of a response.
  record Cut (rows : List FriendInfo) (more : Bool) (r out : FriendListResponse) : Type 0 where
    sent : List FriendInfo
    left : List FriendInfo
    items : List FriendItem
    split : rows ≡ sent ++ left
    listed : out.friend_list ≡ r.friend_list ++ items
    shows : Shows sent items
    next : out.next_uid ≡ last_uid r.next_uid sent
    request : out.request_id ≡ r.request_id
    still_fits : json.size r ≤ body_limit → json.size (grown r out) ≤ body_limit
    fits : (sent ≡ []) ⊎ (json.size (grown r out) ≤ body_limit)
    ending : Ending more left (grown r out) out

  stopped :
      (rows : List FriendInfo) (more : Bool) (r out : FriendListResponse)
      → out.friend_list ≡ r.friend_list
      → out.next_uid ≡ r.next_uid
      → out.request_id ≡ r.request_id
      → Ending more rows r out
      → Cut rows more r out
  stopped rows more r out l u q e =
      let same : r ≡ grown r out = λ i. record r { next_uid = sym u i; friend_list = sym l i } in
      record {
        sent = [];
        left = rows;
        items = [];
        split = refl;
        listed = l ∙ sym (append-nil r.friend_list);
        shows = tt;
        next = u;
        request = q;
        still_fits = subst (λ x. json.size x ≤ body_limit) same;
        fits = inl refl;
        ending = subst (λ x. Ending more rows x out) same e;
      }

  no_error : (n : ℕ) (b : Bool) → n ≡ 0 → ((n == 0) && b) ≡ b
  no_error n b e = ap (λ x. (x == 0) && b) e

  cut_off-Cut :
      (f : FriendInfo) (rows : List FriendInfo) (more : Bool) (r : FriendListResponse)
      → r.error ≡ 0
      → Over r f
      → Cut (f ∷ rows) more r (with_more (cut_off r more))
  cut_off-Cut f rows more r fine over =
      if_either {A = FriendListResponse × Bool} (λ out. Cut (f ∷ rows) more r (with_more out))
        (is_empty r.friend_list) (record r { error = chat_data_invalid }, more) (r, true)
        (λ e.
          stopped (f ∷ rows) more r (with_more (record r { error = chat_data_invalid }, more)) refl
            refl refl (none_fits f rows refl over e refl refl))
        (λ e.
          stopped (f ∷ rows) more r (with_more (r, true)) refl refl refl
            (full f rows refl over e fine (no_error r.error true fine)))

  module _ {S : Type 0} (g : Parts S) (uid : ℤ) where
    redacted-OwnProfile :
        (f : FriendInfo) (s : ChatState S)
        → OwnProfile f (redact_profile g.env (friend_profile f) f.uid uid s.conn).0
    unfolding redact_profile
    redacted-OwnProfile f s =
        if_either (OwnProfile f) _ (friend_profile f) (hidden (friend_profile f)) (λ _. inl refl)
          (λ _. inr refl)

    add_friends-Cut :
        (rows : List FriendInfo) (more : Bool) (r : FriendListResponse) (s : ChatState S)
        → r.error ≡ 0
        → Cut rows more r (with_more (add_friends g json uid rows more r s).0)
    unfolding add_friends with_friend
    add_friends-Cut [] more r s fine =
        stopped [] more r (with_more (r, more)) refl refl refl
          (all_sent refl fine (no_error r.error more fine))
    add_friends-Cut (f ∷ rest) more r s fine =
        let (shown, s1) = on_conn (redact_profile g.env (friend_profile f) f.uid uid) s in
        let own = redacted-OwnProfile f s in
        let candidate = with_friend r f shown in
        if_either {A = Run S (FriendListResponse × Bool)}
          (λ m. Cut (f ∷ rest) more r (with_more (m s1).0)) (ltb body_limit (json.size candidate))
          (give (cut_off r more)) (add_friends g json uid rest more candidate)
          (λ e.
            cut_off-Cut f rest more r fine
              (record { shown = shown; own = own; large = ltb→lt body_limit _ e }))
          (λ e.
            let c = add_friends-Cut rest more candidate s1 fine in
            let small : json.size candidate ≤ body_limit = ground (arith, e) in
            record {
              sent = f ∷ c.sent;
              left = c.left;
              items =
                  record { uid = f.uid; name = f.name; remark = f.remark; profile = shown }
                  ∷ c.items;
              split = ap (λ l. f ∷ l) c.split;
              listed = c.listed ∙ append_assoc r.friend_list (_ ∷ []) c.items;
              shows = (record { uid = refl; name = refl; remark = refl; profile = own }, c.shows);
              next = c.next;
              request = c.request;
              still_fits = λ _. c.still_fits small;
              fits = inr (c.still_fits small);
              ending = c.ending;
            })

-- A page of the friends that were read: the first of them in their order, each with its own names and
-- its profile or a hidden one, with the uid to go on from; it fits into a message unless it is empty,
-- and it ends where it must.
pub record Listed (json : FriendJson) (page : FriendPageResult) (asked r : FriendListResponse)
    : Type 0 where
  pub sent : List FriendInfo
  pub left : List FriendInfo
  pub split : page.items ≡ sent ++ left
  pub shows : Shows sent r.friend_list
  pub next : r.next_uid ≡ last_uid asked.next_uid sent
  pub request : r.request_id ≡ asked.request_id
  pub fits : (sent ≡ []) ⊎ (json.size (grown json asked r) ≤ body_limit)
  pub ending : Ending json page.has_more left (grown json asked r) r

module _ {S : Type 0} (g : Parts S) (json : FriendJson) (uid : ℤ) where
  -- What `GetFriendList` makes of a page that was read, which starts with an empty list. It sends the
  -- first friends of the page, each item with the uid, name and remark of its friend and with the
  -- profile that was read or a blank one, under the identifier of the request and with the uid to go on
  -- from. Either these are all of the page, without an error, and it says that there is more exactly if
  -- the read did; or the next friend would make the response too large for a message, and then it says
  -- that there is more, or it is an error without friends if that friend is the first. With a friend,
  -- the response that the loop measured fits into a message.
  pub list_page-Listed :
      (page : FriendPageResult) (r : FriendListResponse) (s : ChatState S)
      → page.ok ≡ true
      → r.friend_list ≡ []
      → Listed json page (record r { error = 0 }) (list_page g json uid r page s).0
  unfolding list_page
  list_page-Listed page r s ok empty =
      let start : FriendListResponse = record r { error = 0 } in
      if_either {A = Run S FriendListResponse} (λ m. Listed json page start (m s).0) (not page.ok)
        (give (record r { error = chat_database_failed }))
        (add_friends g json uid page.items page.has_more start >>= λ out. give (with_more out))
        (λ e. absurd (ground arith))
        (λ _.
          let c = add_friends-Cut json g uid page.items page.has_more start s refl in
          record {
            sent = c.sent;
            left = c.left;
            split = c.split;
            shows = subst (Shows c.sent) (sym (c.listed ∙ ap (λ l. l ++ c.items) empty)) c.shows;
            next = c.next;
            request = c.request;
            fits = c.fits;
            ending = c.ending;
          })
