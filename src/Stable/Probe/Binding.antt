-- ===== src/Stable/Probe/Binding.antt =====
-- `newBinding` of internal/stable/prober.go: the address that each endpoint and each hostname of a
-- probe is bound to. `net.SplitHostPort` and `net.JoinHostPort` of the standard library are written
-- out; whether a host is an address literal (`netip.ParseAddr`) is a parameter.
pub mod Pinned
pub mod Agreement
use sub_preprocessor.Base.{
  ℕ, zero, suc, ◌+◌, ◌-◌, ◌*◌, ◌/◌, ◌%◌, ◌^◌, ◌≤◌, ◌<◌, max, min, ◌≡◌, refl, sym, ap, ◌∙◌, ◌≢◌, ◌↔◌,
  ◌⊎◌, inl, inr, Bool, true, false, not, ◌&&◌, ◌||◌, Option, none, some, List, [], ◌∷◌, ◌++◌, map,
  arith, ◌>>=◌, ltb, leb, ◌==◌, if◌then◌else◌, leb→le, le→leb, ltb→lt, lt→ltb, ==_iff, tests,
  Bool-cases, Option-cases, if_either, if_passed, AllSome, AllSome-bind, bind-eq-some, some-inj,
  AllSome-all, AllSome-map, Bytes, codes, beq, beq_iff, beq_refl, has_byte, cut, cut-append,
  cut_last, split, is_space, trim_left, trim_right, trim_space, starts_with, is_digit, is_upper,
  is_lower, lower_byte, lower_byte_idem, is_ascii, to_lower, length, get_elem?, take, drop,
  length-append, keep, any, every, All, All-append, All-map, Among, length-Among,
}
use sub_preprocessor.Base.Dict.{find, put}
use sub_preprocessor.Netip.{Addr}
use sub_preprocessor.Stable.Dead.{same_addr}
use sub_preprocessor.Stable.Merge.{Entry, seen_key}
use sub_preprocessor.Geoblock.{host_key}

-- what stands between '[' and ']', and the port behind the ':' that follows
abbrev pub bracketed : Option (Bytes × Bytes) → Option (Bytes × Bytes)
bracketed none = none
bracketed (some (host, [])) = none
bracketed (some (host, c ∷ port)) =
    if c == b':'
      && (not (has_byte b':' port)
          && (not (has_byte b'[' (host ++ port)) && not (has_byte b']' port)))
    then some (host, port)
    else none

abbrev pub unbracketed : Option (Bytes × Bytes) → Option (Bytes × Bytes)
unbracketed none = none
unbracketed (some (host, port)) =
    if has_byte b':' host || (has_byte b'[' (host ++ port) || has_byte b']' (host ++ port))
    then none
    else some (host, port)

-- `net.SplitHostPort`
unfoldable pub split_host_port : Bytes → Option (Bytes × Bytes)
unfolding cut cut_last has_byte
split_host_port [] = none
split_host_port (c ∷ s) =
    if c == b'[' then bracketed (cut b']' s) else unbracketed (cut_last b':' (c ∷ s))

-- `net.JoinHostPort`
unfoldable pub join_host_port : Bytes → Bytes → Bytes
unfolding has_byte
join_host_port host port =
    if has_byte b':' host || has_byte b'%' host
    then b'[' ∷ (host ++ (b']' ∷ (b':' ∷ port)))
    else host ++ b':' ∷ port

-- a table of addresses with the keys on which there is a conflict: `byAddr` with `addrUnbound`, or
-- `hosts` with `unbound`
pub record Pins : Type 0 where
  pub table : List (Bytes × Addr)
  pub conflicts : List Bytes

abbrev pub no_pins : Pins
no_pins = record { table = []; conflicts = [] }

-- `delete(m, key)`
unfoldable pub without : Bytes → List (Bytes × Addr) → List (Bytes × Addr)
unfolding keep beq
without key m = keep (λ (e : Bytes × Addr). not (beq key e.0)) m

-- what is done of the address that the key has so far
abbrev pub pin_over : Option Addr → Bytes → Addr → Pins → Pins
pin_over (some prev) key ip p =
    if same_addr prev ip
    then p
    else record { table = without key p.table; conflicts = key ∷ p.conflicts }
pin_over none key ip p =
    if seen_key key p.conflicts then p else record p { table = put beq key ip p.table }

unfoldable pub pin : Bytes → Addr → Pins → Pins
unfolding find put without seen_key same_addr
pin key ip p = pin_over (find beq key p.table) key ip p

pub record BindTable : Type 0 where
  pub by_addr : Pins
  pub hosts : Pins

module _ (unicode : Bytes → Bytes) (is_literal : Bytes → Bool) where
  -- `pinKey`
  unfoldable pub pin_key : Bytes → Bytes
  unfolding host_key
  pin_key host = host_key unicode host

  abbrev pub bind_over : Option (Bytes × Bytes) → Addr → BindTable → BindTable
  bind_over none ip b = b
  bind_over (some (host, port)) ip b =
      let key = pin_key host in
      let by_addr = pin (join_host_port key port) ip b.by_addr in
      if is_literal host
      then record b { by_addr = by_addr }
      else record { by_addr = by_addr; hosts = pin key ip b.hosts }

  -- one round of `newBinding`; an entry's address is always valid here
  unfoldable pub bind_entry : Entry → BindTable → BindTable
  unfolding pin pin_key join_host_port split_host_port
  bind_entry e b = bind_over (split_host_port e.addr) e.ip b

  unfoldable pub bind_entries : List Entry → BindTable → BindTable
  unfolding bind_entry
  bind_entries [] b = b
  bind_entries (e ∷ es) b = bind_entries es (bind_entry e b)

  -- `newBinding`
  unfoldable pub new_binding : List Entry → BindTable
  unfolding bind_entries
  new_binding es = bind_entries es (record { by_addr = no_pins; hosts = no_pins })

  -- `precheckAddr`: the address to dial, and whether it is the bound one. No binding is `none`, a
  -- port is its decimal text, and `text` is the method `String` of an address.
  unfoldable pub precheck_addr : (Addr → Bytes) → Option BindTable → Bytes → Bytes → Bytes × Bool
  unfolding join_host_port pin_key seen_key find
  precheck_addr text none server port = (join_host_port server port, false)
  precheck_addr text (some b) server port =
      let key = join_host_port (pin_key server) port in
      let own : Bytes × Bool = (join_host_port server port, false) in
      if seen_key key b.by_addr.conflicts then own else elim (find beq key b.by_addr.table) [
        | some ip ↦ (join_host_port (text ip) port, true)
        | none ↦ own
      ]

  -- `urlBound`
  unfoldable pub url_bound : Option BindTable → Bytes → Bool
  unfolding find pin_key
  url_bound none server = true
  url_bound (some b) server =
      if is_literal server
      then true
      else (elim (find beq (pin_key server) b.hosts.table) [ none ↦ false | some ip ↦ true ])
