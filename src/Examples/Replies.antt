-- ===== src/Examples/Replies.antt =====
-- Runs of the models of `dispatch` of imapgw/session.py and of the sections of imapgw/fetch.py at
-- concrete inputs.
use imap_work_trial.Base.{
  nat_eq, list_eq, map, List, ◌≡◌, refl, false, Bytes, codes, to_upper, ◌≢◌, Option, none, some, [],
  ◌∷◌, ◌++◌, arith,
}
use imap_work_trial.Parser.Tokens.{Command, nil}
use imap_work_trial.Session.Dispatch.{
  not_authenticated, Connection, Handler, returned, auth_error, set_credentials, dispatch, report,
  refuse_auth, settle, clear_credentials, write,
}
use imap_work_trial.Session.Answers.{Refused, dispatch-Refused, dispatch-cleared}
use imap_work_trial.Fetch.Sections.{
  split_message, split_lines, extend_first, strip_prefix, cut_behind, fold_lines, logical_lines,
  header_lines, field_name, before_colon, strip_left, strip_right, ends_line, keep_lines,
  filter_header,
}
use imap_work_trial.Fetch.Slices.{concat, IsSplit, Groups, header_lines-Groups}

abbrev fresh : Connection
fresh = record {
  state = not_authenticated;
  inbox_id = none;
  api = false;
  api_key = none;
  registered = [];
  conn_id = codes "00c0ffee";
  written = [];
}

abbrev login : Command
login = record { tag = codes "a1"; name = codes "LOGIN"; args = nil }

-- A LOGIN that the upstream service answers with 401.
abbrev rejected_login : Handler
rejected_login cmd c = (set_credentials (codes "a@x") (codes "key") c, auth_error 401)

abbrev handlers : Bytes → Option Handler
handlers name = some rejected_login

raised : (rejected_login login fresh).1 ≢ returned
raised = λ e. cc

dispatch-Refused_example :
    Refused login
      (rejected_login login fresh).1
      (rejected_login login fresh).0
      (dispatch handlers login fresh)
dispatch-Refused_example = dispatch-Refused handlers login fresh rejected_login refl raised

paired : (rejected_login login fresh).0.api ≡ false → (rejected_login login fresh).0.api_key ≡ none
unfolding set_credentials
paired absent = absurd (ground arith)

early : (dispatch handlers login fresh).state ≡ not_authenticated
unfolding dispatch report refuse_auth settle clear_credentials write set_credentials
early = refl

dispatch-cleared_example :
    ((dispatch handlers login fresh).api ≡ false) × ((dispatch handlers login fresh).api_key ≡ none)
dispatch-cleared_example = dispatch-cleared handlers login fresh rejected_login refl paired early

abbrev crlf : Bytes
crlf = 13 ∷ 10 ∷ []

abbrev message : Bytes
message =
    codes "From: a"
    ++ crlf
    ++ codes "Subject: b"
    ++ crlf
    ++ codes "  c"
    ++ crlf
    ++ crlf
    ++ codes "body"

sections_lem :
    ((split_message message).1 ≡ codes "body")
    × (filter_header (split_message message).0 (codes "subject" ∷ []) false
        ≡ codes "Subject: b" ++ crlf ++ codes "  c" ++ crlf ++ crlf)
unfolding split_message cut_behind strip_prefix filter_header header_lines logical_lines split_lines
    extend_first fold_lines keep_lines field_name before_colon strip_left strip_right ends_line
    to_upper
sections_lem = (refl, refl)

header_lines-Groups_example :
    (physical : List Bytes) × (groups : List (List Bytes)) × IsSplit
      (split_message message).0
      physical
    × Groups physical groups
    × (header_lines (split_message message).0 ≡ map concat groups)
header_lines-Groups_example = header_lines-Groups (split_message message).0
