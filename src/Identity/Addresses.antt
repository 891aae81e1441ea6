-- ===== src/Identity/Addresses.antt =====
-- internal/identity/identity.go: whose address ExtractClientIP answers.
use model_lib.Base.{
  ◌≡◌, refl, ap, sym, ◌∙◌, ◌⊎◌, inl, inr, Bool, true, false, ◌&&◌, Option, none, some, Bytes,
  is_empty, if_cases, trim_space, Option-cases,
}
use model_lib.Config.{Config, is_trusted_proxy}
use model_lib.Identity.{
  HttpRequest, before_comma, remote_host, if_parsed, parsed, first_of, trusts, is_proxy, header_ip,
  extract_client_ip,
}

and_parts : (a b : Bool) → a && b ≡ true → (a ≡ true) × (b ≡ true)
and_parts true b h = (refl, h)
and_parts false b h = cc

module _ {Network Ip : Type 0} (contains : Network → Ip → Bool) (parse_ip : Bytes → Option Ip)
    (split_host : Bytes → Option Bytes) where
  -- The request comes from a proxy of the configuration.
  pub record ForwardedFacts (cfg : Config Network) (r : HttpRequest) : Type 0 where
    pub enabled : cfg.use_trusted_proxy_headers ≡ true
    pub proxy : Ip
    pub peer : parse_ip (remote_host parse_ip split_host r) ≡ some proxy
    pub trusted : is_trusted_proxy Network contains cfg proxy ≡ true

  proxy-facts :
      (cfg : Config Network) (r : HttpRequest)
      → is_proxy parse_ip split_host contains cfg r ≡ true
      → ForwardedFacts cfg r
  proxy-facts cfg r h =
      let (enabled, known) = and_parts cfg.use_trusted_proxy_headers _ h in
      elim (Option-cases (parse_ip (remote_host parse_ip split_host r))) [
        | inl missing ↦ cc (ap (trusts parse_ip split_host contains cfg) missing, known)
        | inr (ip, found) ↦ record {
          enabled = enabled;
          proxy = ip;
          peer = found;
          trusted = sym (ap (trusts parse_ip split_host contains cfg) found) ∙ known;
        }
      ]

  parsed-parses :
      (candidate a : Bytes)
      → parsed parse_ip split_host candidate ≡ some a
      → (ip : Ip) × (parse_ip a ≡ some ip)
  parsed-parses candidate a h = elim (Option-cases (parse_ip candidate)) [
    | inl missing ↦ cc (h, ap (if_parsed candidate) missing)
    | inr (ip, found) ↦
        let kept : some candidate ≡ some a = sym (ap (if_parsed candidate) found) ∙ h in
        let same : candidate ≡ a = cc kept in (ip, sym (ap parse_ip same) ∙ found)
  ]

  -- An address that is read from a header is one that parses.
  header_ip-parses :
      (value text a : Bytes)
      → header_ip parse_ip split_host value text ≡ some a
      → (ip : Ip) × (parse_ip a ≡ some ip)
  header_ip-parses value text a =
      if_cases (λ (o : Option Bytes). o ≡ some a → (ip : Ip) × (parse_ip a ≡ some ip))
        (is_empty value) (λ _ h. cc h) (λ _ h. parsed-parses (trim_space text) a h)

  -- The address is the host of the connection, unless the connection is a trusted proxy's and the
  -- configuration lets it speak for others: then it can be another one, which parses as an address.
  pub extract_client_ip-facts :
      (cfg : Config Network) (r : HttpRequest)
      → (extract_client_ip parse_ip split_host contains cfg r ≡ remote_host parse_ip split_host r)
        ⊎ (ForwardedFacts cfg r
            × ((ip : Ip) × (parse_ip (extract_client_ip parse_ip split_host contains cfg r)
                  ≡ some ip)))
  unfolding extract_client_ip
  extract_client_ip-facts cfg r =
      if_cases
        (λ (a : Bytes). (a ≡ host) ⊎ (ForwardedFacts cfg r × ((ip : Ip) × (parse_ip a ≡ some ip))))
        (is_proxy parse_ip split_host contains cfg r)
        (λ proxied.
          named (proxy-facts cfg r proxied)
            (header_ip parse_ip split_host r.forwarded_for (before_comma r.forwarded_for))
            (header_ip parse_ip split_host r.real_ip r.real_ip)
            (header_ip-parses r.forwarded_for (before_comma r.forwarded_for))
            (header_ip-parses r.real_ip r.real_ip))
        (λ _. inl refl)
    where
      host : Bytes
      host = remote_host parse_ip split_host r

      named :
          ForwardedFacts cfg r
          → (x y : Option Bytes) → ((a : Bytes) → x ≡ some a → (ip : Ip) × (parse_ip a ≡ some ip))
          → ((a : Bytes) → y ≡ some a → (ip : Ip) × (parse_ip a ≡ some ip))
          → (first_of x y host ≡ host)
            ⊎ (ForwardedFacts cfg r × ((ip : Ip) × (parse_ip (first_of x y host) ≡ some ip)))
      named from (some a) y f g = inr (from, f a refl)
      named from none (some b) f g = inr (from, g b refl)
      named from none none f g = inl refl
