-- ===== src/Auth/ClientIp.antt =====
-- internal/auth/clientip.go: the address of a client behind trusted proxies. The parsing of addresses and
-- networks in package net is a parameter.
use serpent_seek.Prelude.{
  String, ◌≡◌, refl, ap, ◌∙◌, ◌⊎◌, inl, inr, Bool, true, false, not, ◌||◌, Option, none, some, List,
  [], ◌∷◌, ◌++◌, any, ◌==◌, if◌then◌else◌, arith, trim_space, split, Bool-cases, Option-cases,
}

-- package net: addresses and networks
pub record Net : Type 1 where
  pub Ip : Type 0
  pub IpNet : Type 0
  pub parse_ip : String → Option Ip
  pub parse_cidr : String → Option IpNet
  -- the network of one address, of 32 or 128 bits
  pub single : Ip → IpNet
  pub contains : IpNet → Ip → Bool
  -- the host of net.SplitHostPort
  pub split_host_port : String → Option String

module _ (n : Net) where
  -- NewClientIPResolver
  unfoldable pub parse_trusted : List String → List n.IpNet
  parse_trusted [] = []
  parse_trusted (raw ∷ entries) =
      let rest = parse_trusted entries in
      let entry = trim_space raw in
      if entry == "" then rest else elim (n.parse_ip entry) [
        | some ip ↦ n.single ip ∷ rest
        | none ↦ elim (n.parse_cidr entry) [ none ↦ rest | some net ↦ net ∷ rest ]
      ]

  -- isTrusted
  unfoldable pub is_trusted : List n.IpNet → String → Bool
  is_trusted trusted raw = elim (n.parse_ip raw) [
    | none ↦ false
    | some ip ↦ any (λ net. n.contains net ip) trusted
  ]

  unfoldable pub is_address : String → Bool
  is_address s = elim (n.parse_ip s) [ none ↦ false | some ip ↦ true ]

  -- hostOnly
  unfoldable pub host_only : String → String
  host_only addr = elim (n.split_host_port addr) [ none ↦ addr | some host ↦ host ]

  -- a hop that the walk passes over
  unfoldable pub is_skipped : List n.IpNet → String → Bool
  is_skipped trusted candidate =
      candidate == "" || not (is_address candidate) || is_trusted trusted candidate

  -- the walk over the hops, from the right
  unfoldable pub last_untrusted : List n.IpNet → List String → Option String
  last_untrusted trusted [] = none
  last_untrusted trusted (part ∷ parts) =
      let candidate = trim_space part in
      elim (last_untrusted trusted parts) [
        | some found ↦ some found
        | none ↦ if is_skipped trusted candidate then none else some candidate
      ]

  -- ClientIP, for the remote address and the header X-Forwarded-For
  unfoldable pub client_ip : List n.IpNet → String → String → String
  client_ip trusted remote_addr forwarded =
      let remote = host_only remote_addr in
      if not (is_trusted trusted remote) || forwarded == ""
      then remote
      else elim (last_untrusted trusted (split 44 forwarded)) [
        | none ↦ remote
        | some candidate ↦ candidate
      ]

  -- every hop of a list is passed over
  abbrev pub AllSkipped : List n.IpNet → List String → Type 0
  AllSkipped trusted [] = Unit
  AllSkipped trusted (part ∷ parts) =
      (is_skipped trusted (trim_space part) ≡ true) × AllSkipped trusted parts

  last_untrusted-none :
      (trusted : List n.IpNet) (parts : List String)
      → last_untrusted trusted parts ≡ none
      → AllSkipped trusted parts
  unfolding last_untrusted
  last_untrusted-none trusted [] h = tt
  last_untrusted-none trusted (part ∷ parts) h =
      elim (Option-cases (last_untrusted trusted parts)) [
        | inr (found, e) ↦ absurd (ground (arith, h, e))
        | inl e ↦ (ground (arith, h, e), last_untrusted-none trusted parts e)
      ]

  -- the hop whose address is taken: none to its right could have been
  pub record IsLastHop (trusted : List n.IpNet) (parts : List String) (found : String)
      : Type 0 where
    pub before : List String
    pub hop : String
    pub after : List String
    pub whole : parts ≡ before ++ hop ∷ after
    pub value : found ≡ trim_space hop
    pub untrusted : is_skipped trusted found ≡ false
    pub skipped : AllSkipped trusted after

  last_untrusted-some :
      (trusted : List n.IpNet) (parts : List String) (found : String)
      → last_untrusted trusted parts ≡ some found
      → IsLastHop trusted parts found
  unfolding last_untrusted
  last_untrusted-some trusted [] found h = absurd (ground (arith, h))
  last_untrusted-some trusted (part ∷ parts) found h =
      elim (Option-cases (last_untrusted trusted parts)) [
        | inr (other, e) ↦
            let same : other ≡ found = ground (arith, h, e) in
            let rest = last_untrusted-some trusted parts found (e ∙ ap some same) in
            record {
              before = part ∷ rest.before;
              hop = rest.hop;
              after = rest.after;
              whole = ap (λ l. part ∷ l) rest.whole;
              value = rest.value;
              untrusted = rest.untrusted;
              skipped = rest.skipped;
            }
        | inl e ↦
            let here : (found ≡ trim_space part) × (is_skipped trusted (trim_space part) ≡ false) =
              ground (arith, h, e) in
            record {
              before = [];
              hop = part;
              after = parts;
              whole = refl;
              value = here.0;
              untrusted = ap (λ c. is_skipped trusted c) here.0 ∙ here.1;
              skipped = last_untrusted-none trusted parts e;
            }
      ]

  -- The address of a client is that of the peer, or, if the peer is a trusted proxy, a valid address of the
  -- header that is not trusted and to the right of which all hops are empty, invalid or trusted.
  pub client_ip_lem :
      (trusted : List n.IpNet) (remote_addr forwarded : String)
      → (client_ip trusted remote_addr forwarded ≡ host_only remote_addr)
        ⊎ ((is_trusted trusted (host_only remote_addr) ≡ true)
            × IsLastHop trusted (split 44 forwarded) (client_ip trusted remote_addr forwarded))
  unfolding client_ip
  client_ip_lem trusted remote_addr forwarded =
      elim (Bool-cases (not (is_trusted trusted (host_only remote_addr)) || forwarded == "")) [
        | inl direct ↦ inl (rw direct refl)
        | inr behind ↦ elim (Option-cases (last_untrusted trusted (split 44 forwarded))) [
          | inl nobody ↦ inl (rw (behind, nobody) refl)
          | inr (found, e) ↦ inr (
            ground (arith, behind),
            rw (behind, e) (last_untrusted-some trusted (split 44 forwarded) found e),
          )
        ]
      ]
