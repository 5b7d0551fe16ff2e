-- ===== src/Consent/Pii.antt =====
-- `scrub_pii` of src/voice/consent.py. The regular expressions are parameters: each is the `sub` of
-- its pattern, and those with a replacement function take it.
use autonomous_sales_agent.Prelude.{ℕ, String, Option, none, some, ◌&&◌, leb, if◌then◌else◌, truthy}

pub record Redactors : Type 0 where
  pub sub_ssn : String → String
  pub sub_card : (String → String) → String → String
  pub sub_email : String → String
  pub sub_address : String → String
  -- the replacement takes the whole match and its group
  pub sub_name : (String → String → String) → String → String
  pub sub_phone : String → String
  -- `len(re.sub(r"\D", "", s))` and `s.replace(old, new)`
  pub digits : String → ℕ
  pub replace : String → String → String → String

module _ ⦃r : Redactors⦄ where
  -- `_card_or_keep`
  unfoldable pub card_or_keep : String → String
  card_or_keep found =
      if leb 13 (r.digits found) && leb (r.digits found) 19 then "[CARD]" else found

  -- `_name_sub`
  unfoldable pub name_sub : String → String → String
  name_sub found name = r.replace found name "[NAME]"

  unfoldable pub scrub_pii : Option String → String
  unfolding card_or_keep name_sub
  scrub_pii none = ""
  scrub_pii (some text) =
      if truthy (some text)
      then r.sub_phone (
          r.sub_name name_sub
            (r.sub_address (r.sub_email (r.sub_card card_or_keep (r.sub_ssn text)))))
      else ""
