-- ===== src/Session/Examples.antt =====
-- Sessions of a server that counts its calls.
use zeus_client_golang.Shared.{
  ℕ, suc, String, true, false, ◌≡◌, ◌≢◌, refl, [], Option, none, some, arith, eq_iff, if◌then◌else◌,
  ◌==◌, Bool-cases, inl, inr,
}
use zeus_client_golang.Shared.Int.{pos, add_int}
use zeus_client_golang.Shared.Text.{trim_space}
use zeus_client_golang.Shared.Json.{Value, str, num, obj, end, field, nil, cons, as_string, get}
use zeus_client_golang.Session.{SessionHandle}
use zeus_client_golang.Session.Client.{
  DataTarget, SessionHttpResult, SessionClient, SetupOptions, CommitOptions, World, returns,
  empty_handle, json_int,
}
use zeus_client_golang.Session.Lifecycle.{setup, prior_or_empty}
use zeus_client_golang.Session.Commit.{commit}
use zeus_client_golang.Session.Identity.{IsServed, session_id_never_invented}
use zeus_client_golang.Session.Rounds.{
  Commits, commit_exact, commit_advances_once, IsReady, RoundsHaveNext, setup-IsReady,
}

abbrev accepted : SessionHttpResult
accepted = record {
  is_ok = true;
  status_code = pos 200;
  body = field "session_id" (str " s1 ") (field "contract_status" (str "ok") end);
  url = "http://zeus";
  req_id = "r1";
  error = "";
}

abbrev server : SessionClient ℕ
server = record {
  create_session = λ req n. (returns accepted none, suc n);
  rehydrate = λ id rounds mode headers target n.
      (returns (if id == "s1" then some (field "round" (num (pos 3)) end) else none) none, suc n);
  continue_turn = λ req n. (returns accepted none, suc n);
  last_req_id = λ n. "";
}

abbrev target : DataTarget
target = record { bucket = "b"; scope = "s"; collection = "c" }

abbrev prior_handle : String → SessionHandle
prior_handle id = record empty_handle {
  session_id = id;
  round = pos 3;
  mode = "analytics";
  enabled = true;
}

abbrev setup_options : String → SetupOptions
setup_options id = record {
  chat_request = end;
  user_message = "hello";
  prior = some (prior_handle id);
  contract_id = "c1";
  bound_contract_hash = "md5:1";
  mode = "";
  chat_id = "chat";
  enable_sessions = true;
  headers = [];
  turn_id = "t";
  force_trace = false;
  rewind = false;
  brief_sha12 = "";
  mini_sha12 = "";
}

abbrev started : World ℕ
started = record { client_state = 0; logs = [] }

abbrev no_digest : Value → Option String
no_digest v = none

-- A session that is gone is created anew, one that is known goes on.
recovers :
    (setup no_digest target
      (some server)
      none
      (setup_options "gone")
      started).0.value.recovered_from
    ≡ "gone"
unfolding setup trim_space
recovers = refl

goes_on :
    (setup no_digest target (some server) none (setup_options "s1") started).0.value.round ≡ pos 4
unfolding setup trim_space get add_int
goes_on = refl

session_id_never_invented_example :
    IsServed server target
      (trim_space (prior_or_empty (some (prior_handle "gone"))).session_id)
      (setup no_digest target (some server) none (setup_options "gone") started).0.value
session_id_never_invented_example =
    session_id_never_invented server target no_digest none (setup_options "gone") started

setup_passes :
    (setup no_digest target (some server) none (setup_options "s1") started).0.failure ≡ none
unfolding setup trim_space
setup_passes = refl

rounds_have_next : RoundsHaveNext server target (prior_or_empty ((setup_options "s1").prior))
unfolding json_int get
rounds_have_next id mode headers s reh found = elim (Bool-cases (id == "s1")) [
  | inl here ↦
      let e : reh ≡ field "round" (num (pos 3)) end = ground (arith, found, here) in
      rw e (ground arith)
  | inr gone ↦ ground (arith, found, gone)
]

setup-IsReady_example :
    IsReady (setup no_digest target (some server) none (setup_options "s1") started).0.value
setup-IsReady_example =
    setup-IsReady server target no_digest none (setup_options "s1") started rounds_have_next refl
      setup_passes

abbrev commit_options : CommitOptions
commit_options = record {
  chat_request = end;
  produced_delta =
      cons (obj (field "role" (str "user") end))
        (cons (obj (field "role" (str "assistant") end)) nil);
  mode = "";
  headers = [];
  turn_id = "t";
  force_trace = false;
  rewind = false;
  brief_sha12 = "";
  mini_sha12 = "";
}

abbrev fresh : SessionHandle
fresh = record (prior_handle "s1") { created = true }

fresh_known : fresh.session_id ≢ ""
fresh_known e = ground (arith, e, eq_iff "s1" "")

commit_exact_example :
    Commits fresh (commit (some server) target none fresh commit_options started).0
commit_exact_example = commit_exact server target none fresh commit_options started refl fresh_known

first_passes : (commit (some server) target none fresh commit_options started).0.failure ≡ none
unfolding commit as_string get
first_passes = refl

second_passes :
    (commit
      (some server)
      target
      none
      (commit (some server) target none fresh commit_options started).0.value.handle
      commit_options
      (commit (some server) target none fresh commit_options started).1).0.failure
    ≡ none
unfolding commit as_string get
second_passes = refl

commit_advances_once_example :
    (commit
      (some server)
      target
      none
      (commit (some server) target none fresh commit_options started).0.value.handle
      commit_options
      (commit (some server) target none fresh commit_options started).1).0.value.handle.round
    ≡ (if fresh.created then add_int fresh.round (pos 1) else fresh.round)
commit_advances_once_example =
    commit_advances_once server target fresh commit_options commit_options started refl fresh_known
      first_passes second_passes
