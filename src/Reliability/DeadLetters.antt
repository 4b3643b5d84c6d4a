-- ===== src/Reliability/DeadLetters.antt =====
-- src/reliability/dlq/dead-letter-manager.ts over the queues in memory, src/kernel-impl/memory/queue.ts.
-- The record of counts is a Dict: its readers take a count by its name.
mod Tests
use openclaw_enterprise_plug.Common.{
  ℕ, String, ◌≡◌, refl, ap, ◌∙◌, Bool, true, false, Option, none, some, List, [], ◌∷◌, any, length,
  filter, or_else, str_eq, arith, eq_iff, if◌then◌else◌,
}
use openclaw_enterprise_plug.Common.Dict
use openclaw_enterprise_plug.Common.Dict.{Dict}
use openclaw_enterprise_plug.Kernel.Queue.{
  Queue, QueueMessage, PaginatedResult, is_dead, get_dead_letter_messages, replay_dead_letter,
}

-- The queues by their names.
abbrev pub Queues : Type 0
Queues = Dict Queue

-- A queue that is not there reads as an empty one, which the source makes at that time.
abbrev pub get_queue : String → Queues → Queue
get_queue name qs = or_else (Dict.get qs name) []

unfoldable pub get_messages : String → Option ℕ → Option ℕ → Queues → PaginatedResult QueueMessage
get_messages name offset limit qs = get_dead_letter_messages offset limit (get_queue name qs)

unfoldable pub replay : String → String → ℕ → Queues → Queues
replay name id now qs = Dict.set qs name (replay_dead_letter id now (get_queue name qs))

-- The loop of `getStats` over the names that are left.
unfoldable pub count_from : Queues → List String → Dict ℕ → Dict ℕ
count_from qs [] counts = counts
count_from qs (name ∷ names) counts =
    let page = get_dead_letter_messages (some 0) (some 1) (get_queue name qs) in
    count_from qs names (Dict.set counts name page.total)

unfoldable pub get_stats : List String → Queues → Dict ℕ
unfolding count_from
get_stats stats_queues qs = count_from qs stats_queues []

-- Whether the name is one of those that are counted.
abbrev pub is_counted : String → List String → Bool
is_counted name names = any (λ n. str_eq n name) names

abbrev pub dead : Queue → ℕ
dead q = length (filter (λ m. is_dead m.state) q)

count_from-counts :
    (qs : Queues) (names : List String) (counts : Dict ℕ) (name : String)
    → Dict.get (count_from qs names counts) name
      ≡ (if is_counted name names then some (dead (get_queue name qs)) else Dict.get counts name)
unfolding count_from get_dead_letter_messages
count_from-counts qs [] counts name = refl
count_from-counts qs (n ∷ names) counts name =
    let d = dead (get_queue n qs) in
    ground (
      arith,
      count_from-counts qs names (Dict.set counts n d) name,
      Dict.get-set counts n d name,
      eq_iff n name,
    )

-- The statistics have a count for exactly the names that the manager was given, and it is the number
-- of dead letters of that queue, however often the name stands in the list.
pub get_stats-counts :
    (names : List String) (qs : Queues) (name : String)
    → Dict.get (get_stats names qs) name
      ≡ (if is_counted name names then some (dead (get_queue name qs)) else none)
unfolding get_stats Dict.get
get_stats-counts names qs name = count_from-counts qs names [] name

-- A replay in one queue leaves the messages of every other queue as they are.
pub replay-others :
    (name other id : String) (now : ℕ) (offset limit : Option ℕ) (qs : Queues)
    → str_eq name other ≡ false
    → get_messages other offset limit (replay name id now qs) ≡ get_messages other offset limit qs
unfolding get_messages replay
replay-others name other id now offset limit qs h =
    let changed = replay_dead_letter id now (get_queue name qs) in
    let same : Dict.get (Dict.set qs name changed) other ≡ Dict.get qs other =
      Dict.get-set qs name changed other
      ∙ ap (λ c. if c then some changed else Dict.get qs other) h in
    ap (λ q. get_dead_letter_messages offset limit (or_else q [])) same
