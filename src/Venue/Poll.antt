-- ===== src/Venue/Poll.antt =====
-- kairos_quant/venue_poll.py: the facts of the venue poller and their validation. The patterns of the
-- fields, the hash, the times and the base of the messages are kairos_core's and pydantic's, and a
-- parameter.
use Prim.Native.String.{compare}
use text.Mathlib.Text.{is_lt}
use kairos_quant_scouts.Prelude.{
  ℕ, Bool, true, false, not, ◌&&◌, ◌||◌, List, [], ◌∷◌, Option, none, some, String, str_eq, ltb,
  leb, length, if◌then◌else◌,
}
use kairos_quant_scouts.Prelude.Text.{one_of}
use kairos_quant_scouts.Prelude.Result.{Result, ok, err, ◌>>=◌, ◌>>◌, raise_if}
use kairos_quant_scouts.OrderBook.{sorted}

pub data VenuePollStatus : Type 0 where
  attempted succeeded failed : VenuePollStatus

-- The messages of the validator, `bad_field` for a field's own check, and `bad_time` for a time that no
-- datetime has.
pub data PollError : Type 0 where
  bad_time bad_field not_sorted not_expected early_attempt early_outcome no_completion bad_failure
        bad_message_id :
      PollError

-- The objects that are hashed.
pub record PollIdentity : Type 0 where
  pub source : String
  pub config_fingerprint : String
  pub scheduled_at_ms : ℕ
  pub binance_symbol : String
  pub venue_symbol : String

pub record MessageIdentity : Type 0 where
  pub poll_id : String
  pub status : VenuePollStatus
  pub attempted_at_ms : ℕ
  pub completed_at_ms : Option ℕ
  pub failure_code : Option String

-- `canonical_sha256` of the two objects, the patterns of the fields, a datetime, `datetime_from_unix_ms`,
-- which raises where it is `none`, and what the base message checks of its source, id and time.
pub record Formats : Type 1 where
  pub D : Type 0
  pub datetime_from_unix_ms : ℕ → Option D
  pub is_message : String → String → D → Bool
  pub poll_sha256 : PollIdentity → String
  pub message_sha256 : MessageIdentity → String
  pub is_sha256 : String → Bool
  pub is_binance_symbol : String → Bool
  pub is_venue_symbol : String → Bool
  pub is_failure_code : String → Bool

-- The fields of a fact that this module sets; times are numbers.
pub record VenuePollFact (D : Type 0) : Type 0 where
  pub source : String
  pub message_id : String
  pub produced_at : D
  pub poll_id : String
  pub config_fingerprint : String
  pub status : VenuePollStatus
  pub binance_symbol : String
  pub venue_symbol : String
  pub expected_symbols : List String
  pub interval_ms : ℕ
  pub scheduled_at_ms : ℕ
  pub attempted_at_ms : ℕ
  pub completed_at_ms : Option ℕ
  pub failure_code : Option String

-- `a < b` of texts
abbrev pub text_before : String → String → Bool
text_before a b = is_lt (compare a b)

-- `sorted(set(xs))`
unfoldable pub set_of : List String → List String
set_of [] = []
set_of (x ∷ xs) = if one_of x xs then set_of xs else x ∷ set_of xs

unfoldable pub same_texts : List String → List String → Bool
same_texts [] [] = true
same_texts (x ∷ xs) (y ∷ ys) = str_eq x y && same_texts xs ys
same_texts _ _ = false

unfoldable pub is_attempted : VenuePollStatus → Bool
is_attempted attempted = true
is_attempted _ = false

unfoldable pub is_failed : VenuePollStatus → Bool
is_failed failed = true
is_failed _ = false

abbrev pub is_some {ℓ} : {A : Type ℓ} → Option A → Bool
is_some none = false
is_some (some _) = true

-- `completed is None or completed < attempted_at`
unfoldable pub incomplete : Option ℕ → ℕ → Bool
incomplete none at = true
incomplete (some t) at = ltb t at

-- `(a) != (b)` of Booleans
unfoldable pub differ : Bool → Bool → Bool
differ true b = not b
differ false b = b

module _ (fm : Formats) where
  unfoldable pub venue_poll_id : String → String → ℕ → String → String → String
  venue_poll_id source fingerprint scheduled binance venue = fm.poll_sha256 (record {
    source = source;
    config_fingerprint = fingerprint;
    scheduled_at_ms = scheduled;
    binance_symbol = binance;
    venue_symbol = venue;
  })

  unfoldable pub venue_poll_message_id :
      String → VenuePollStatus → ℕ → Option ℕ → Option String → String
  venue_poll_message_id poll_id status at completed failure = fm.message_sha256 (record {
    poll_id = poll_id;
    status = status;
    attempted_at_ms = at;
    completed_at_ms = completed;
    failure_code = failure;
  })

  -- `gt=0` of an optional time, and the pattern of an optional code
  unfoldable pub good_time : Option ℕ → Bool
  good_time none = true
  good_time (some t) = ltb 0 t

  unfoldable pub good_code : Option String → Bool
  good_code none = true
  good_code (some code) = fm.is_failure_code code

  -- the checks of the fields
  unfoldable pub good_fields : VenuePollFact fm.D → Bool
  unfolding good_time good_code
  good_fields fact =
      fm.is_message fact.source fact.message_id fact.produced_at
      && fm.is_sha256 fact.poll_id
      && fm.is_sha256 fact.config_fingerprint
      && fm.is_binance_symbol fact.binance_symbol
      && fm.is_venue_symbol fact.venue_symbol
      && ltb 0 (length fact.expected_symbols)
      && leb (length fact.expected_symbols) 64
      && ltb 0 fact.interval_ms
      && leb fact.interval_ms 86_400_000
      && ltb 0 fact.scheduled_at_ms
      && ltb 0 fact.attempted_at_ms
      && good_time fact.completed_at_ms
      && good_code fact.failure_code

  -- the branches of `validate_outcome` on the status
  unfoldable pub check_outcome : VenuePollFact fm.D → Result PollError (Unit {0})
  unfolding is_attempted is_failed incomplete differ
  check_outcome fact =
      if is_attempted fact.status
      then raise_if (is_some fact.completed_at_ms || is_some fact.failure_code) early_outcome
      else (raise_if (incomplete fact.completed_at_ms fact.attempted_at_ms) no_completion
          >> raise_if (differ (is_failed fact.status) (is_some fact.failure_code)) bad_failure)

  -- `validate_outcome`
  unfoldable pub validate_outcome : VenuePollFact fm.D → Result PollError (VenuePollFact fm.D)
  unfolding set_of same_texts check_outcome venue_poll_message_id
  validate_outcome fact = do
    raise_if
        (not (
          same_texts (sorted (λ b a. text_before b a) (set_of fact.expected_symbols))
            fact.expected_symbols))
        not_sorted
    raise_if (not (one_of fact.venue_symbol fact.expected_symbols)) not_expected
    raise_if (ltb fact.attempted_at_ms fact.scheduled_at_ms) early_attempt
    check_outcome fact
    raise_if
        (not (
          str_eq fact.message_id (
            venue_poll_message_id fact.poll_id fact.status fact.attempted_at_ms fact.completed_at_ms
              fact.failure_code)))
        bad_message_id
    ok fact

  module _ (source fingerprint : String) (status : VenuePollStatus) (binance venue : String)
      (expected : List String) (interval scheduled at : ℕ) (completed : Option ℕ)
      (failure : Option String) where
    -- the fields that `build_venue_poll_fact` passes
    unfoldable pub fact_of : fm.D → VenuePollFact fm.D
    unfolding venue_poll_id venue_poll_message_id
    fact_of produced_at =
        let poll_id = venue_poll_id source fingerprint scheduled binance venue in
        record {
          source = source;
          message_id = venue_poll_message_id poll_id status at completed failure;
          produced_at = produced_at;
          poll_id = poll_id;
          config_fingerprint = fingerprint;
          status = status;
          binance_symbol = binance;
          venue_symbol = venue;
          expected_symbols = expected;
          interval_ms = interval;
          scheduled_at_ms = scheduled;
          attempted_at_ms = at;
          completed_at_ms = completed;
          failure_code = failure;
        }

    -- `produced_at or datetime_from_unix_ms(event_at_ms)`
    unfoldable pub event_at_ms : ℕ
    event_at_ms = elim completed as (λ _. ℕ) [ none ↦ at | some t ↦ t ]

    unfoldable pub produced : Option fm.D → Result PollError fm.D
    unfolding event_at_ms
    produced (some d) = ok d
    produced none = elim (fm.datetime_from_unix_ms event_at_ms) as (λ _. Result PollError fm.D) [
      | none ↦ err bad_time
      | some d ↦ ok d
    ]

    unfoldable pub build_venue_poll_fact : Option fm.D → Result PollError (VenuePollFact fm.D)
    unfolding fact_of good_fields validate_outcome produced
    build_venue_poll_fact produced_at = do
      d ← produced produced_at
      raise_if (not (good_fields (fact_of d))) bad_field
      validate_outcome (fact_of d)
