-- ===== src/Stable/Probe/Binding/Agreement.antt =====
-- internal/stable/prober.go: an endpoint or a hostname is bound exactly when its entries agree.
use sub_preprocessor.Base.{
  ◌≡◌, refl, ap, ◌∙◌, inl, inr, Bool, true, false, ◌||◌, Option, none, some, List, [], ◌∷◌,
  if◌then◌else◌, Bool-cases, Bytes, beq,
}
use sub_preprocessor.Base.Dict.{find}
use sub_preprocessor.Netip.{Addr}
use sub_preprocessor.Stable.Merge.{seen_key, Entry}
use sub_preprocessor.Stable.Probe.Binding.{
  url_bound, bind_over, precheck_addr, Pins, no_pins, BindTable, pin_key, bind_entry, bind_entries,
  new_binding, split_host_port, join_host_port,
}
use sub_preprocessor.Stable.Probe.Binding.Pinned.{
  pin_all, ips_for, agreed, pinned_agreed, find-agreed,
}

module _ (unicode : Bytes → Bytes) (is_literal : Bytes → Bool) where
  abbrev addr_over : Option (Bytes × Bytes) → Addr → List (Bytes × Addr) → List (Bytes × Addr)
  addr_over none ip rest = rest
  addr_over (some (host, port)) ip rest =
      (join_host_port (pin_key unicode is_literal host) port, ip) ∷ rest

  abbrev host_over : Option (Bytes × Bytes) → Addr → List (Bytes × Addr) → List (Bytes × Addr)
  host_over none ip rest = rest
  host_over (some (host, port)) ip rest =
      if is_literal host then rest else (pin_key unicode is_literal host, ip) ∷ rest

  -- the endpoint of each entry that has one, with its address
  pub addr_pairs : List Entry → List (Bytes × Addr)
  addr_pairs [] = []
  addr_pairs (e ∷ es) = addr_over (split_host_port e.addr) e.ip (addr_pairs es)

  -- the hostname of each entry that has one, with its address
  pub host_pairs : List Entry → List (Bytes × Addr)
  host_pairs [] = []
  host_pairs (e ∷ es) = host_over (split_host_port e.addr) e.ip (host_pairs es)

  bind_over_pins :
      (o : Option (Bytes × Bytes)) (ip : Addr) (b : BindTable) (addrs hosts : List (Bytes × Addr))
      → (pin_all addrs (bind_over unicode is_literal o ip b).by_addr
          ≡ pin_all (addr_over o ip addrs) b.by_addr)
        × (pin_all hosts (bind_over unicode is_literal o ip b).hosts
            ≡ pin_all (host_over o ip hosts) b.hosts)
  unfolding pin_all
  bind_over_pins none ip b addrs hosts = (refl, refl)
  bind_over_pins (some (host, port)) ip b addrs hosts = elim (Bool-cases (is_literal host)) [
    | inl y ↦ rw y (refl, refl)
    | inr y ↦ rw y (refl, refl)
  ]

  bind_entries_pins :
      (es : List Entry) (b : BindTable)
      → ((bind_entries unicode is_literal es b).by_addr ≡ pin_all (addr_pairs es) b.by_addr)
        × ((bind_entries unicode is_literal es b).hosts ≡ pin_all (host_pairs es) b.hosts)
  unfolding bind_entries addr_pairs host_pairs
  bind_entries_pins [] b = (unfold pin_all in refl, unfold pin_all in refl)
  bind_entries_pins (e ∷ es) b =
      let ih = bind_entries_pins es (bind_entry unicode is_literal e b) in
      let o = bind_over_pins (split_host_port e.addr) e.ip b (addr_pairs es) (host_pairs es) in
      (ih.0 ∙ (unfold bind_entry in o.0), ih.1 ∙ (unfold bind_entry in o.1))

  abbrev pub is_some : Option Addr → Bool
  is_some none = false
  is_some (some ip) = true

  -- A URL test is bound to the address of its entry exactly when its server is a literal or all
  -- entries of its hostname agree on one address.
  pub url_bound-agreed :
      (es : List Entry) (server : Bytes)
      → url_bound unicode is_literal (some (new_binding unicode is_literal es)) server
        ≡ is_literal server
          || is_some (agreed (ips_for (pin_key unicode is_literal server) (host_pairs es)))
  unfolding url_bound new_binding
  url_bound-agreed es server =
      let key = pin_key unicode is_literal server in
      let start : BindTable = record { by_addr = no_pins; hosts = no_pins } in
      let f =
        ap (λ (q : Pins). find beq key q.table) (bind_entries_pins es start).1
        ∙ find-agreed key (host_pairs es) in
      elim (Bool-cases (is_literal server)) [
        | inl y ↦ rw y
        | inr n ↦ rw n (
            is_some_of (find beq key (bind_entries unicode is_literal es start).hosts.table)
              (agreed (ips_for key (host_pairs es))) f)
      ]
    where
      is_some_of :
          (o q : Option Addr) → o ≡ q → (elim o [ none ↦ false | some ip ↦ true ]) ≡ is_some q
      is_some_of none q e = ap is_some e
      is_some_of (some ip) q e = ap is_some e

  -- the address of a mapping, bound or its own
  abbrev pub dialled : (Addr → Bytes) → Bytes → Bytes → Option Addr → Bytes × Bool
  dialled text server port (some ip) = (join_host_port (text ip) port, true)
  dialled text server port none = (join_host_port server port, false)

  -- The pre-check of a mapping dials the address on which all entries with its endpoint agree,
  -- as a bound one, and the own server of the mapping, unbound, if they do not agree or there
  -- are none, whatever the order of the entries.
  pub precheck_addr-agreed :
      (text : Addr → Bytes) (es : List Entry) (server port : Bytes)
      → precheck_addr unicode is_literal text (some (new_binding unicode is_literal es)) server port
        ≡ dialled text server port (
            agreed
              (ips_for (join_host_port (pin_key unicode is_literal server) port) (addr_pairs es)))
  unfolding precheck_addr new_binding
  precheck_addr-agreed text es server port =
      let key = join_host_port (pin_key unicode is_literal server) port in
      let p =
        (bind_entries unicode is_literal es
          (record { by_addr = no_pins; hosts = no_pins })).by_addr in
      let e =
        pinned_agreed key (addr_pairs es) p
          (bind_entries_pins es (record { by_addr = no_pins; hosts = no_pins })).0 in
      chosen (seen_key key p.conflicts) (find beq key p.table)
      ∙ ap (λ o. dialled text server port o) e
    where
      own : Bytes × Bool
      own = (join_host_port server port, false)

      chosen :
          (b : Bool) (o : Option Addr)
          → (if b
              then own
              else (elim o [ some ip ↦ (join_host_port (text ip) port, true) | none ↦ own ]))
            ≡ dialled text server port (if b then none else o)
      chosen true o = refl
      chosen false none = refl
      chosen false (some ip) = refl
