-- ===== src/Venue/Outcome.antt =====
-- kairos_quant/venue_poll.py: which facts can be built.
use kairos_quant_scouts.Prelude.{
  ℕ, ◌≤◌, ◌≡◌, Bool, true, not, List, Option, none, some, String, str_eq,
}
use kairos_quant_scouts.Prelude.Text.{one_of}
use kairos_quant_scouts.Prelude.Result.{Result}
use kairos_quant_scouts.OrderBook.{sorted}
use kairos_quant_scouts.Venue.Poll.{
  VenuePollStatus, attempted, succeeded, failed, PollError, VenuePollFact, Formats, text_before,
  set_of, same_texts, venue_poll_message_id, good_fields, fact_of, produced,
}

-- What each status says of the end of a poll: an attempt has none, a success has a time that is not
-- before the attempt, and a failure has such a time and a code.
abbrev pub IsOutcome : VenuePollStatus → ℕ → Option ℕ → Option String → Type 0
IsOutcome attempted at completed failure = (completed ≡ none) × (failure ≡ none)
IsOutcome succeeded at completed failure =
    (t : ℕ) × (completed ≡ some t) × (at ≤ t) × (failure ≡ none)
IsOutcome failed at completed failure =
    (t : ℕ) × (code : String) × (completed ≡ some t) × (at ≤ t) × (failure ≡ some code)

module _ (fm : Formats) where
  -- What a fact must meet, its message id aside.
  pub record IsPollable (fact : VenuePollFact fm.D) : Type 0 where
    pub fields : good_fields fm fact ≡ true
    pub ordered :
        sorted (λ b a. text_before b a) (set_of fact.expected_symbols) ≡ fact.expected_symbols
    pub member : one_of fact.venue_symbol fact.expected_symbols ≡ true
    pub timely : fact.scheduled_at_ms ≤ fact.attempted_at_ms
    pub outcome : IsOutcome fact.status fact.attempted_at_ms fact.completed_at_ms fact.failure_code

  module _ (fact : VenuePollFact fm.D) where
    order_test : Bool
    order_test = not (
        same_texts (sorted (λ b a. text_before b a) (set_of fact.expected_symbols))
          fact.expected_symbols)

    member_test : Bool
    member_test = not (one_of fact.venue_symbol fact.expected_symbols)

    id_test : Bool
    id_test = not (
        str_eq fact.message_id (
          venue_poll_message_id fm fact.poll_id fact.status fact.attempted_at_ms
            fact.completed_at_ms fact.failure_code))

  module _ (source fingerprint : String) (status : VenuePollStatus) (binance venue : String)
      (expected : List String) (interval scheduled at : ℕ) (completed : Option ℕ)
      (failure : Option String) where
    whole : fm.D → VenuePollFact fm.D
    whole d =
        fact_of fm source fingerprint status binance venue expected interval scheduled at completed
          failure d

    stamp : Option fm.D → Result PollError fm.D
    stamp p =
        produced fm source fingerprint status binance venue expected interval scheduled at completed
          failure p
