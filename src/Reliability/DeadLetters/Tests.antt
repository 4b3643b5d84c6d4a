-- ===== src/Reliability/DeadLetters/Tests.antt =====
-- Runs of the dead-letter manager.
use openclaw_enterprise_plug.Common.{String, ◌≡◌, refl, none, [], ◌∷◌}
use openclaw_enterprise_plug.Common.Dict
use openclaw_enterprise_plug.Common.Dict.{Dict}
use openclaw_enterprise_plug.Kernel.Queue.{
  InternalMessage, dead_letter, normal, get_dead_letter_messages, replay_dead_letter,
}
use openclaw_enterprise_plug.Reliability.DeadLetters.{Queues, replay, get_stats, count_from}

abbrev letter : String → InternalMessage
letter id = record {
  id = id;
  tenant_id = "t";
  kind = "mail";
  payload = "";
  priority = normal;
  idempotency_key = none;
  scheduled_at = none;
  attempts = 3;
  max_attempts = 3;
  created_at = 1;
  metadata = none;
  state = dead_letter;
  visible_after = 1;
  processing_deadline = none;
}

abbrev queues : Queues
queues = ("mails", letter "a" ∷ letter "b" ∷ []) ∷ ("jobs", letter "c" ∷ []) ∷ []

-- A queue that is not there has no dead letters.
get_stats_run : get_stats ("mails" ∷ "none" ∷ []) queues ≡ ("mails", 2) ∷ ("none", 0) ∷ []
unfolding get_stats count_from get_dead_letter_messages Dict.set Dict.get
get_stats_run = refl

replay_run :
    get_stats ("mails" ∷ "jobs" ∷ []) (replay "mails" "b" 50 queues)
    ≡ ("mails", 1) ∷ ("jobs", 1) ∷ []
unfolding get_stats count_from get_dead_letter_messages replay replay_dead_letter Dict.set Dict.get
replay_run = refl
