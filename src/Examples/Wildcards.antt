-- ===== src/Examples/Wildcards.antt =====
-- Runs of the model of `_wildcard_match` of imapgw/commands.py at concrete inputs.
use imap_work_trial.Base.{◌≡◌, ◌↔◌, Bool, true, codes, lower, some}
use imap_work_trial.Commands.Wildcards.{is_wild, wildcard_match}
use imap_work_trial.Commands.Globs.{Globs}
use imap_work_trial.Commands.Matching.{wildcard_match-Globs}

wildcard_match-Globs_example :
    (b : Bool) × (wildcard_match true (codes "in%*X") (codes "INBOX") ≡ some b)
    × ((b ≡ true) ↔ Globs is_wild (lower (codes "in%*X")) (lower (codes "INBOX")))
wildcard_match-Globs_example = wildcard_match-Globs true (codes "in%*X") (codes "INBOX")
