-- ===== src/Effect.antt =====
-- Effects: what the program asks of the outside, as a history of events, and what it is answered,
-- as a record of functions of the history so far. An operation returns its result, or the error, with
-- the longer history.
use canary.Base.{ℕ, Text, Result, ok, err, Bool, Option, List, ◌∷◌}
use canary.Json.{Json}
use canary.Report.{AuditReport}
use canary.Target.Address.{Addr}

-- A parsed URL of net/url, with the parts that the program reads.
pub record Url : Type 0 where
  pub scheme : Text
  pub has_user : Bool
  pub host : Text
  pub hostname : Text
  pub port : Text
  pub path : Text
  pub escaped_path : Text
  pub raw_query : Text
  pub fragment : Text

-- A request to the target, with the headers that the program sets; an empty content type and no
-- payment header are not set.
pub record OutgoingRequest : Type 0 where
  pub method : Text
  pub url : Url
  pub body : Text
  pub user_agent : Text
  pub accept : Text
  pub content_type : Text
  pub payment : Option (Text × Text)

-- A response. Reading its body through a limit of `n` bytes gives those bytes, or fails.
pub record Response : Type 0 where
  pub status_code : ℕ
  pub headers : Text → Text
  pub read_body : ℕ → Result Text

pub data Event : Type 0 where
  resolved : Text → Event
  dialed : Addr → Text → Event
  sent : OutgoingRequest → Event
  asked_address : Event
  signed : Text → Json → Event
  evaluated : Text → Text → Event
  saved : AuditReport → Event

-- The latest event first.
abbrev pub History : Type 0
History = List Event

abbrev pub Action : Type 0 → Type 0
Action A = History → Result A × History

infixl 5 ◌>>=◌
abbrev continue : {A B : Type 0} → Result A → (A → Action B) → Action B
continue (ok a) f h = f a h
continue (err e) f h = (err e, h)

abbrev pub ◌>>=◌ : {A B : Type 0} → Action A → (A → Action B) → Action B
◌>>=◌ action next h = let (answer, later) = action h in continue answer next later

module _ {B : Type 0} where
  infixl 5 ◌>>◌
  abbrev pub ◌>>◌ : Action (Unit {0}) → Action B → Action B
  checked >> rest = checked >>= λ done. rest

abbrev pub pure : {A : Type 0} → A → Action A
pure a h = (ok a, h)

abbrev pub lift : {A : Type 0} → Result A → Action A
lift r h = (r, h)

-- Ask the outside, and note that it was asked.
abbrev pub perform : {A : Type 0} → Event → (History → Result A) → Action A
perform event answer h = (answer h, event ∷ h)

-- Read from the outside what leaves no trace there: the clock, random bytes.
abbrev pub observe : {A : Type 0} → (History → Result A) → Action A
observe answer h = (answer h, h)
