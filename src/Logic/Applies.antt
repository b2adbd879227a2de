-- ===== src/Logic/Applies.antt =====
-- `LogicSystem::AddFriendApply`, `NotifyFriendApplication`, `ResolveFriendApply` and
-- `NotifyFriendResolution` (ChatServer/src/LogicSystem.cpp): requests between users, and who is told.
pub mod Refused
use sakura_chat_server.Prelude.{
  ℕ, Text, ℤ, pos, negsuc, is_positive, int_eq, Bool, true, false, not, ◌||◌, Option, none, some,
  List, [], ◌∷◌, length, ltb, if◌then◌else◌,
}
use sakura_chat_server.Status.{uid_invalid}
use sakura_chat_server.Persistence.{chat_not_friend}
use sakura_chat_server.Persistence.Privacy.{request_policy, privacy_allows}
use sakura_chat_server.Accounts.Users.{UserInfo, get_user}
use sakura_chat_server.Accounts.Friends.{
  FriendApplyResult, add_friend_apply, ResolveFriendApplyResult, resolve_friend_apply_method,
}
use sakura_chat_server.Logic.Handlers.{
  Parts, Run, ◌>>=◌, give, on_conn, Profile, redact_profile, Handled, replied, thrown, Target,
  nowhere, to_session, to_server, find_target, Reading, throws, unfit, fits,
}
use sakura_chat_server.Logic.Search.{error_json, profile_of}

-- What is sent to a session about a request, and about its answer.
pub record ApplicationNotice : Type 0 where
  pub apply_id : ℕ
  pub applyuid : ℤ
  pub name : Text
  pub profile : Profile
  pub message : Text

pub record ResolutionNotice : Type 0 where
  pub apply_id : ℤ
  pub agree : Bool
  pub peer_uid : ℤ

-- `AddFriendReq` and `AuthFriendReq`, the calls of another server.
pub record AddFriendReq : Type 0 where
  pub applyuid : ℤ
  pub touid : ℤ
  pub apply_id : ℕ
  pub name : Text
  pub nick : Text
  pub desc : Text
  pub icon : Text
  pub gender : ℕ

pub record AuthFriendReq : Type 0 where
  pub fromuid : ℤ
  pub touid : ℤ
  pub apply_id : ℤ
  pub agree : Bool

pub data Notice : Type 0 where
  pushes_application : Text → ApplicationNotice → Notice
  pushes_resolution : Text → ResolutionNotice → Notice
  calls_add_friend : Text → AddFriendReq → Notice
  calls_auth_friend : Text → AuthFriendReq → Notice

-- The requests, as far as jsoncpp finds the types that are asked for.
pub record AddRequest : Type 0 where
  pub touid : ℤ
  pub descs : Text
  pub back_name : Text

pub record ResolveRequest : Type 0 where
  pub apply_id : ℤ
  pub agree : Bool

-- The responses, of which an exception sends what is there.
pub record AddResponse : Type 0 where
  pub error : Option ℕ
  pub result : Option ℤ
  pub apply_id : Option ℕ

pub record ResolveResponse : Type 0 where
  pub error : Option ℕ
  pub result : Option ℤ
  pub apply_id : Option ℤ
  pub agree : Option Bool

abbrev pub add_error : ℕ → AddResponse
add_error code = record { error = some code; result = some (negsuc 0); apply_id = some 0 }

abbrev pub unwelcome : AddResponse
unwelcome = record { error = some chat_not_friend; result = some (negsuc 0); apply_id = none }

abbrev pub AddAnswer : Type 0
AddAnswer = Handled Notice AddResponse

abbrev pub ResolveAnswer : Type 0
ResolveAnswer = Handled Notice ResolveResponse

-- The notification of a request, by where its receiver is: another server gets the whole profile, which
-- it hides itself.
abbrev pub tell_application : ℤ → ℤ → ℕ → Text → UserInfo → Profile → Target → List Notice
tell_application from to id descs u shown nowhere = []
tell_application from to id descs u shown (to_session s) =
    pushes_application s
      (record { apply_id = id; applyuid = from; name = u.name; profile = shown; message = descs })
    ∷ []
tell_application from to id descs u shown (to_server name) =
    calls_add_friend name (record {
      applyuid = from;
      touid = to;
      apply_id = id;
      name = u.name;
      nick = u.nick;
      desc = descs;
      icon = u.icon;
      gender = u.gender;
    })
    ∷ []

abbrev pub tell_resolution : ℤ → ℤ → ℤ → Bool → Target → List Notice
tell_resolution applicant actor id agree nowhere = []
tell_resolution applicant actor id agree (to_session s) =
    pushes_resolution s (record { apply_id = id; agree = agree; peer_uid = actor }) ∷ []
tell_resolution applicant actor id agree (to_server name) =
    calls_auth_friend name
      (record { fromuid = actor; touid = applicant; apply_id = id; agree = agree })
    ∷ []

module _ {S : Type 0} (g : Parts S) where
  open g use {env}

  unfoldable pub notify_applicant : ℤ → ℤ → ℕ → Text → Option UserInfo → Run S (List Notice)
  unfolding ◌>>=◌ redact_profile find_target
  notify_applicant from to id descs none = give []
  notify_applicant from to id descs (some u) = do
    shown ← on_conn (redact_profile env (profile_of u) from to)
    target ← find_target g to
    give (tell_application from to id descs u shown target)

  -- `NotifyFriendApplication`
  unfoldable pub notify_friend_application : ℤ → ℤ → ℕ → Text → Run S (List Notice)
  unfolding ◌>>=◌ get_user notify_applicant
  notify_friend_application from to id descs = do
    applicant ← on_conn (get_user env from)
    notify_applicant from to id descs applicant

  -- The notification comes before the reply, which is sent at the end.
  unfoldable pub after_apply : ℤ → ℤ → Text → FriendApplyResult → Run S AddAnswer
  unfolding ◌>>=◌ notify_friend_application
  after_apply from to descs out = do
    notices ←
        if not (int_eq out.result (pos 0))
        then give []
        else notify_friend_application from to out.apply_id descs
    give (record {
      notices = notices;
      reply =
          some (record { error = some 0; result = some out.result; apply_id = some out.apply_id });
      closes = false;
    })

  unfoldable pub store_apply : Option ℕ → ℤ → AddRequest → Bool → Run S AddAnswer
  unfolding ◌>>=◌ add_friend_apply after_apply
  store_apply trouble from r false = give (replied unwelcome)
  store_apply trouble from r true = do
    out ← on_conn (add_friend_apply env trouble from r.touid r.descs r.back_name)
    after_apply from r.touid r.descs out

  unfoldable pub apply_to : Option ℕ → ℤ → AddRequest → Run S AddAnswer
  unfolding ◌>>=◌ privacy_allows store_apply
  apply_to trouble from r = do
    allowed ← on_conn (privacy_allows env r.touid from request_policy)
    store_apply trouble from r allowed

  unfoldable pub apply_request : Option ℕ → ℤ → Reading AddRequest → Run S AddAnswer
  unfolding apply_to
  apply_request trouble from throws =
      give (thrown (record { error = none; result = none; apply_id = none }))
  apply_request trouble from unfit = give (replied (add_error error_json))
  apply_request trouble from (fits r) =
      if (not (is_positive from) || (not (is_positive r.touid) || int_eq from r.touid))
        || (ltb 255 (length r.descs) || ltb 64 (length r.back_name))
      then give (replied (add_error uid_invalid))
      else apply_to trouble from r

  -- `AddFriendApply`, with jsoncpp's reading of the body, and an error inside the stored procedure
  unfoldable pub add_friend_handler :
      (Text → Reading AddRequest) → Option ℕ → ℤ → Text → Run S AddAnswer
  unfolding apply_request
  add_friend_handler parse trouble from body = apply_request trouble from (parse body)

  -- `NotifyFriendResolution`
  unfoldable pub notify_friend_resolution : ℤ → ℤ → ℤ → Bool → Run S (List Notice)
  unfolding ◌>>=◌ find_target
  notify_friend_resolution applicant actor id agree = do
    target ← find_target g applicant
    give (tell_resolution applicant actor id agree target)

  unfoldable pub after_resolve : ℤ → ResolveRequest → ResolveFriendApplyResult → Run S ResolveAnswer
  unfolding ◌>>=◌ notify_friend_resolution
  after_resolve actor r out = do
    notices ←
        if int_eq out.result (pos 0)
        then notify_friend_resolution out.from_uid actor r.apply_id r.agree
        else give []
    give (record {
      notices = notices;
      reply = some (record {
        error = some 0;
        result = some out.result;
        apply_id = some r.apply_id;
        agree = some r.agree;
      });
      closes = false;
    })

  unfoldable pub resolve_request : Option ℕ → ℤ → Reading ResolveRequest → Run S ResolveAnswer
  unfolding ◌>>=◌ resolve_friend_apply_method after_resolve
  resolve_request trouble actor throws =
      give (thrown (record { error = none; result = none; apply_id = none; agree = none }))
  resolve_request trouble actor unfit = give (
      replied (record {
        error = some error_json;
        result = some (negsuc 0);
        apply_id = some (pos 0);
        agree = some false;
      }))
  resolve_request trouble actor (fits r) = do
    out ← on_conn (resolve_friend_apply_method env trouble r.apply_id actor r.agree)
    after_resolve actor r out

  -- `ResolveFriendApply`
  unfoldable pub resolve_friend_handler :
      (Text → Reading ResolveRequest) → Option ℕ → ℤ → Text → Run S ResolveAnswer
  unfolding resolve_request
  resolve_friend_handler parse trouble actor body = resolve_request trouble actor (parse body)
