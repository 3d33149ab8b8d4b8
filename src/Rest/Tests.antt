-- ===== src/Rest/Tests.antt =====
-- Runs of the REST client.
use ha_intratone.Base.{◌≡◌, refl, some, none, true, [], Option, arith, if◌then◌else◌}
use ha_intratone.Base.Text.{Text, codes, text_eq, concat}
use ha_intratone.Rest.Json.{Json, text, array, object, no_items, item, no_members, member, str}
use ha_intratone.Rest.Session.{World, Reply, answered, Api, done, bearer}
use ha_intratone.Rest.Auth.{tick, transient, reauth}
use ha_intratone.Rest.Calls.{
  Access, answer_path, answer_call, open_path, open_access, get_json, mobipass_post,
}
use ha_intratone.Rest.Access.{list_access}
use ha_intratone.Rest.Bounds.{Within, commands-Within}
use ha_intratone.Rest.Onboarding.{Device, register_with_invite, authenticate_for_invite}
use ha_intratone.Rest.Registered.{Registered, Answered, onboarding_answers}
use ha_intratone.Rest.Verdicts.{tick-transient, tick-reauth}
use ha_intratone.Rest.Openable.{AllListed, list_access-AllListed}
use ha_intratone.Rest.Recovery.{
  granted, executed, Serves, answer_call-recovers, open_access-recovers,
}

abbrev client : Api
client = record {
  tel = codes "0612345678";
  device_id = codes "ha";
  indicatif = codes "33";
  app_id = codes "app";
  app_token = codes "token";
  numeric_id = codes "42";
  jwt = text (codes "old");
  mobipass_state = none;
  sent = [];
}

abbrev gate : Access
gate = record {
  access_id = codes "7";
  phonenumber = codes "06";
  name = codes "Gate";
  residence = codes "Home";
  openmode = codes "data";
}

abbrev down : World
down = record { reply = λ h r. answered 503 none; repr = λ j. []; quote = λ s. s }

abbrev denial : Json
denial = object (member (codes "state") (text (codes "error")) no_members)

abbrev denying : World
denying = record { reply = λ h r. answered 401 (some denial); repr = λ j. []; quote = λ s. s }

abbrev one_gate : Json
one_gate = object (
    member (codes "data")
      (array (
        item
          (object (
            member (codes "id") (text (codes "7"))
              (member (codes "openmode") (text (codes "data")) no_members)))
          no_items))
      no_members)

abbrev listing : World
listing = record { reply = λ h r. answered 200 (some one_gate); repr = λ j. []; quote = λ s. s }

-- A server that knows the JWT `new`.
unfoldable knows_new : Option Text → Reply
unfolding text_eq
knows_new none = answered 401 (some denial)
knows_new (some jwt) =
    if text_eq jwt (codes "new") then answered 200 (some executed) else answered 401 (some denial)

unfoldable serve : Text → Option Text → Reply
unfolding text_eq knows_new
serve path jwt =
    if text_eq path (codes "api/auth/device")
    then answered 200 (some (granted (codes "new")))
    else knows_new jwt

abbrev renewing : World
renewing = record { reply = λ h r. serve r.path r.authorization; repr = λ j. []; quote = λ s. s }

renewing_answers : Serves renewing (codes "new") (answer_path renewing (codes "1")) client.jwt
unfolding serve knows_new text_eq answer_path concat bearer str
renewing_answers = record {
  grants = λ h r e. rw e refl;
  refuses = λ h r e f. (401, denial, omega arith, rw (e, f) refl);
  executes = λ h r e f. rw (e, f) refl;
}

renewing_opens : Serves renewing (codes "new") open_path client.jwt
unfolding serve knows_new text_eq bearer str
renewing_opens = record {
  grants = λ h r e. rw e refl;
  refuses = λ h r e f. (401, denial, omega arith, rw (e, f) refl);
  executes = λ h r e f. rw (e, f) refl;
}

answer_call-recovers_example :
    ((answer_call renewing (codes "1") client).0 ≡ done true)
    × ((answer_call renewing (codes "1") client).1.jwt ≡ text (codes "new"))
answer_call-recovers_example =
    answer_call-recovers renewing b'n' (codes "ew") (codes "1") client renewing_answers refl refl
      refl refl

open_access-recovers_example :
    ((open_access renewing gate client).0 ≡ done true)
    × ((open_access renewing gate client).1.jwt ≡ text (codes "new"))
open_access-recovers_example =
    open_access-recovers renewing b'n' (codes "ew") gate client renewing_opens refl refl refl

tick-transient_example :
    ((tick down client).0 ≡ transient)
    × ((tick down client).1.jwt ≡ text (codes "old"))
    × ((tick down client).1.numeric_id ≡ codes "42")
tick-transient_example = tick-transient down client (λ h r. tt) refl refl

tick-reauth_example :
    ((tick denying client).0 ≡ reauth)
    × ((tick denying client).1.jwt ≡ text (codes "old"))
    × ((tick denying client).1.numeric_id ≡ codes "42")
tick-reauth_example = tick-reauth denying client (λ h r. (refl, omega arith, omega arith)) refl refl

list_access-AllListed_example : AllListed (list_access listing client).0
list_access-AllListed_example = list_access-AllListed listing client

commands-Within_example :
    Within 5 client (answer_call denying (codes "1") client)
    × Within 5 client (open_access denying gate client)
    × Within 5 client (get_json denying (codes "api/access") client)
    × Within 5 client (mobipass_post denying (codes "api/access") [] client)
commands-Within_example = commands-Within denying (codes "1") (codes "api/access") gate [] client

abbrev phone : Device
phone = record {
  app_id = codes "app";
  app_token = codes "token";
  device_id = codes "ha";
  fcm_token = codes "fcm";
}

onboarding_answers_example :
    Registered (register_with_invite renewing phone (codes "1") (codes "2") []).0
    × Answered 3 [] (authenticate_for_invite renewing phone (codes "0612345678") (codes "33") [])
onboarding_answers_example =
    onboarding_answers renewing phone (codes "1") (codes "2") (codes "0612345678") (codes "33") []
