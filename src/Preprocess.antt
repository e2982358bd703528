-- ===== src/Preprocess.antt =====
-- internal/preprocess: from a request for a source to the nodes that pass its filters, with the
-- address that they judged and an account of the others.
pub mod Filters
pub mod Nodes
pub mod Refresh
pub mod Chain
pub mod Tests
use sub_preprocessor.Base.{
  ℕ, zero, suc, ◌+◌, ◌-◌, ◌*◌, ◌/◌, ◌%◌, ◌^◌, ◌≤◌, ◌<◌, max, min, ◌≡◌, refl, sym, ap, ◌∙◌, ◌≢◌, ◌↔◌,
  ◌⊎◌, inl, inr, Bool, true, false, not, ◌&&◌, ◌||◌, Option, none, some, List, [], ◌∷◌, ◌++◌, map,
  arith, ◌>>=◌, ltb, leb, ◌==◌, if◌then◌else◌, leb→le, le→leb, ltb→lt, lt→ltb, ==_iff, tests,
  Bool-cases, Option-cases, if_either, if_passed, AllSome, AllSome-bind, bind-eq-some, some-inj,
  AllSome-all, AllSome-map, Bytes, codes, beq, beq_iff, beq_refl, has_byte, cut, cut-append,
  cut_last, split, is_space, trim_left, trim_right, trim_space, starts_with, is_digit, is_upper,
  is_lower, lower_byte, lower_byte_idem, is_ascii, to_lower, length, get_elem?, take, drop,
  length-append, keep, any, every, All, All-append, All-map, Among, length-Among,
}
use sub_preprocessor.Netip.{Addr}
use sub_preprocessor.Filter.{CountrySet}

-- `preprocess.NodeResult`: a kept line and the address that its filters judged
pub record NodeResult : Type 0 where
  pub raw : Bytes
  pub ip : Addr

-- `preprocess.FilterRequest`
pub record FilterRequest : Type 0 where
  pub subscription_url : Bytes
  pub allowed_countries : CountrySet
  pub denied_countries : CountrySet
  pub request_body : Bytes
  pub request_hwid : Bytes

-- `preprocess.Stats`
pub record DropStats : Type 0 where
  pub total : ℕ
  pub valid : ℕ
  pub dns_drop : ℕ
  pub geo_drop : ℕ
  pub asn_drop : ℕ
  pub cidr_drop : ℕ
  pub geo_block_drop : ℕ
  pub ipv6_drop : ℕ
  pub unsupported : ℕ
