-- ===== src/Ccs.antt =====
-- The compressed cognitive state of crates/turbomemory_graph/src/ccs.rs and its compressors. A text is
-- the list of its characters. The lower case, the split into words, `format!` and serde_json are
-- parameters. The number of turns is taken to fit a usize.
pub mod Sessions
use turbo_supermemory.Common.{
  ℕ, ◌+◌, ◌-◌, String, List, [], ◌∷◌, ◌++◌, length, take, drop, Option, none, some, Bool, true,
  false, not, ◌||◌, ◌==◌, string_eq, if◌then◌else◌, ltb, leb, ◌≡◌,
}

abbrev pub Text : Type 0
Text = List ℕ

abbrev pub max_facts : ℕ
max_facts = 8

abbrev pub max_topics : ℕ
max_topics = 6

pub record CompressedCognitiveState : Type 0 where
  pub turn_count : ℕ
  pub last_user_input : Text
  pub last_assistant_response : Text
  pub facts : List String
  pub topics : List String

abbrev pub default_state : CompressedCognitiveState
default_state = record {
  turn_count = 0;
  last_user_input = [];
  last_assistant_response = [];
  facts = [];
  topics = [];
}

-- `words` are the words of a text in lower case that are longer than two bytes, and `format_fact` is
-- the `format!` of a turn and two texts; `Json` are the strings that serde_json writes and reads.
pub record Formats (Json : Type 0) : Type 0 where
  pub words : Text → List String
  pub format_fact : ℕ → Text → Text → String
  pub to_json : CompressedCognitiveState → Json
  pub from_json : Json → Option CompressedCognitiveState

unfoldable pub truncate : Text → ℕ → Text
truncate s max_len = if leb (length s) max_len then s else take max_len s ++ (46 ∷ 46 ∷ 46 ∷ [])

unfoldable pub has_topic : String → List String → Bool
has_topic t [] = false
has_topic t (s ∷ ss) = s == t || has_topic t ss

unfoldable pub add_topics : List String → List String → List String
add_topics [] topics = topics
add_topics (t ∷ ts) topics =
    add_topics ts (if has_topic t topics then topics else topics ++ (t ∷ []))

-- `drain(0..len - MAX_TOPICS)`
unfoldable pub bound_topics : List String → List String
bound_topics topics =
    if ltb max_topics (length topics) then drop (length topics - max_topics) topics else topics

unfoldable pub push_fact : String → List String → List String
push_fact fact facts0 =
    let facts = facts0 ++ (fact ∷ []) in
    if ltb max_facts (length facts) then drop 1 facts else facts

module _ {Json : Type 0} (x : Formats Json) where
  -- The fact of a turn.
  abbrev pub fact_of : ℕ → Text → Text → String
  fact_of turn user assistant = x.format_fact turn (truncate user 40) (truncate assistant 40)

  unfoldable pub compress : CompressedCognitiveState → Text → Text → CompressedCognitiveState
  compress ccs user assistant = record {
    turn_count = ccs.turn_count + 1;
    last_user_input = user;
    last_assistant_response = assistant;
    facts = push_fact (fact_of (ccs.turn_count + 1) user assistant) ccs.facts;
    topics = bound_topics (add_topics (x.words user) ccs.topics);
  }

  -- The compressor that calls a model: text that is not a state falls back.
  unfoldable pub compress_by_llm :
      (caller : Json → Text → Text → Json)
      → CompressedCognitiveState
      → Text
      → Text
      → CompressedCognitiveState
  compress_by_llm caller ccs user assistant =
      elim (x.from_json (caller (x.to_json ccs) user assistant)) [
        | some parsed ↦ parsed
        | none ↦ compress ccs user assistant
      ]

  abbrev pub parse_or_default : Option Json → CompressedCognitiveState
  parse_or_default none = default_state
  parse_or_default (some json) = elim (x.from_json json) [ none ↦ default_state | some ccs ↦ ccs ]

  unfoldable pub step_session_with_compressor :
      (CompressedCognitiveState → Text → Text → CompressedCognitiveState)
      → Option Json
      → Text
      → Text
      → Json
  step_session_with_compressor compressor ccs_json user assistant =
      x.to_json (compressor (parse_or_default ccs_json) user assistant)

  unfoldable pub step_session : Option Json → Text → Text → Json
  step_session = step_session_with_compressor compress
