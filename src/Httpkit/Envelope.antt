-- ===== src/Httpkit/Envelope.antt =====
-- httpkit/envelope.go: the response that is written for a failed request.
use onekit.Base.{
  ℕ, Bool, true, false, not, Option, none, some, List, [], ◌∷◌, ◌++◌, Text, bytes, text_eq, leb,
  length, ◌==◌, if◌then◌else◌,
}

-- `Failure`; its cause is an error of type `E`.
pub record Failure (E : Type 0) : Type 0 where
  pub status : ℕ
  pub code : Text
  pub message : Text
  pub field : Text
  pub violations : List Text
  pub cause : Option E

-- A value of the body.
pub data Member : Type 0 where
  text : Text → Member
  texts : List Text → Member

-- The body: the members under "error", or what `Wrap` returns, of a type `B`.
pub data Body (B : Type 0) : Type 0 where
  error_of : List (Text × Member) → Body B
  wrapped : B → Body B

-- `Envelope`, without its logger.
pub record Envelope (B E : Type 0) : Type 0 where
  pub content_type : Text
  pub request_id_header : Text
  pub wrap : Option (Failure E → Text → List (Text × Member) → B)

-- What `Write` does: the header field that it sets, the status and the bytes that it sends, and the cause
-- that it gives to the logger.
pub record Written (E : Type 0) : Type 0 where
  pub content_type : Text
  pub status : ℕ
  pub sent : Text
  pub logged : Option E

abbrev entry : Bool → Text → Member → List (Text × Member)
entry true k v = (k, v) ∷ []
entry false k v = []

module _ {E : Type 0} where
  -- `inner`
  unfoldable pub members : Failure E → Text → List (Text × Member)
  members f request_id =
      (bytes "code", text f.code)
      ∷ (bytes "message", text f.message)
      ∷ (entry (not (text_eq request_id [])) (bytes "request_id") (text request_id)
          ++ (entry (not (text_eq f.field [])) (bytes "field") (text f.field)
              ++ entry (not (length f.violations == 0)) (bytes "violations") (texts f.violations)))

  abbrev logged_cause : Failure E → Option E
  logged_cause f = if leb 500 f.status then f.cause else none

abbrev or_default : Text → Text → Text
or_default s other = if text_eq s [] then other else s

abbrev fallback : Text
fallback = bytes "{\"error\":{\"code\":\"internal\",\"message\":\"internal server error\"}}"

abbrev or_fallback : Option Text → Text
or_fallback none = fallback
or_fallback (some data_) = data_

module _ {B E : Type 0} (marshal : Body B → Option Text) where
  abbrev body_of : Option (Failure E → Text → List (Text × Member) → B) → Failure E → Text → Body B
  unfolding members
  body_of none f request_id = error_of (members f request_id)
  body_of (some wrap) f request_id = wrapped (wrap f request_id (members f request_id))

  -- `Envelope.Write`, given the id of the request's state and the header fields of the response so far.
  unfoldable pub write_failure : Envelope B E → Text → (Text → Text) → Failure E → Written E
  unfolding body_of
  write_failure e state_id response_header f =
      let id =
        or_default state_id
          (response_header (or_default e.request_id_header (bytes "X-Request-Id"))) in
      record {
        content_type = or_default e.content_type (bytes "application/json");
        status = f.status;
        sent = or_fallback (marshal (body_of e.wrap f id)) ++ 0x0A ∷ [];
        logged = logged_cause f;
      }
