-- ===== src/UrlPolicy/Public.antt =====
-- An accepted URL leads to public addresses only.
use flycanon.Prelude.{
  ◌==◌, ◌≡◌, refl, ◌&&◌, ◌||◌, not, String, str_eq, true, false, Option, none, some, List, [], ◌∷◌,
  inl, inr, All, arith, Bool-cases, Option-cases, is_some,
}
use flycanon.Prelude.Strings.{partition}
use flycanon.Prelude.Actions.{ok, err_ok}
use flycanon.UrlPolicy.{
  Host, invalid, unmapped, reason_of, address_is_forbidden, is_local_name, addresses_of,
  check_addresses, check_resolved, check_name, lowered_of, check_host, check_sync,
}

module _ {A : Type 0} (host : Host A) where
  -- A routable public address: by every test of `ipaddress`, on the IPv4 address where it is a mapped one.
  pub record IsPublic (ip_text : String) : Type 0 where
    pub address : A
    pub parsed : host.ip_address ip_text ≡ some address
    pub globally : host.is_global (unmapped host address) ≡ true
    pub not_loopback : host.is_loopback (unmapped host address) ≡ false
    pub not_link_local : host.is_link_local (unmapped host address) ≡ false
    pub not_private : host.is_private (unmapped host address) ≡ false
    pub not_multicast : host.is_multicast (unmapped host address) ≡ false
    pub not_reserved : host.is_reserved (unmapped host address) ≡ false
    pub not_unspecified : host.is_unspecified (unmapped host address) ≡ false
    pub not_site_local : host.is_site_local (unmapped host address) ≡ false
    pub not_shared :
        (host.version (unmapped host address) == 4 && host.in_shared_space (unmapped host address))
        ≡ false

  reason_of-none :
      (ip_text : String) (a : A)
      → host.ip_address ip_text ≡ some a
      → reason_of host (unmapped host a) ≡ none
      → IsPublic ip_text
  unfolding reason_of
  reason_of-none ip_text a parsed h = record {
    address = a;
    parsed = parsed;
    globally = ground (arith, h);
    not_loopback = ground (arith, h);
    not_link_local = ground (arith, h);
    not_private = ground (arith, h);
    not_multicast = ground (arith, h);
    not_reserved = ground (arith, h);
    not_unspecified = ground (arith, h);
    not_site_local = ground (arith, h);
    not_shared = ground (arith, h);
  }

  address_is_forbidden-IsPublic :
      (ip_text : String) → address_is_forbidden host ip_text ≡ none → IsPublic ip_text
  unfolding address_is_forbidden
  address_is_forbidden-IsPublic ip_text h = elim (Option-cases (host.ip_address ip_text)) [
    | inl invalid_ ↦
        absurd (let h' : some invalid ≡ none = rw (invalid_) at h in ground (arith, h'))
    | inr (a, parsed) ↦
        reason_of-none ip_text a parsed
          (let h' : reason_of host (unmapped host a) ≡ none = rw (parsed) at h in h')
  ]

  check_addresses-IsPublic :
      (url : String) (addresses : List String)
      → check_addresses host url addresses ≡ ok tt
      → All IsPublic addresses
  unfolding check_addresses
  check_addresses-IsPublic url [] h = tt
  check_addresses-IsPublic url (ip_text ∷ addresses) h =
      elim (Option-cases (address_is_forbidden host ip_text)) [
        | inl clear ↦ (
          address_is_forbidden-IsPublic ip_text clear,
          check_addresses-IsPublic url addresses
              (let h' : check_addresses host url addresses ≡ ok tt = rw (clear) at h in h'),
        )
        | inr (reason, refused) ↦ absurd (err_ok (rw (refused) at h))
      ]

  -- What an accepted name leads to.
  abbrev pub LeadsToPublic : String → Type 0
  LeadsToPublic lowered =
      (is_local_name host lowered ≡ false)
      × ((ip_text : String) × (addresses : List String) × (addresses_of host lowered
            ≡ some (ip_text ∷ addresses))
          × All IsPublic (ip_text ∷ addresses))

  check_resolved-IsPublic :
      (url lowered : String) (found : Option (List String))
      → check_resolved host url lowered found ≡ ok tt
      → (ip_text : String) × (addresses : List String) × (found ≡ some (ip_text ∷ addresses))
        × All IsPublic (ip_text ∷ addresses)
  unfolding check_resolved
  check_resolved-IsPublic url lowered none h = absurd (err_ok h)
  check_resolved-IsPublic url lowered (some []) h = absurd (err_ok h)
  check_resolved-IsPublic url lowered (some (ip_text ∷ addresses)) h =
      (ip_text, addresses, refl, check_addresses-IsPublic url (ip_text ∷ addresses) h)

  check_name-LeadsToPublic :
      (url lowered : String) → check_name host url lowered ≡ ok tt → LeadsToPublic lowered
  unfolding check_name
  check_name-LeadsToPublic url lowered h = elim (Bool-cases (is_local_name host lowered)) [
    | inl local ↦ absurd (err_ok (rw (local) at h))
    | inr foreign ↦
        elim (Bool-cases
          (not (is_some (partition "." lowered)) && not (is_some (host.ip_address lowered)))) [
            | inl bare ↦ absurd (err_ok (rw (foreign, bare) at h))
            | inr dotted ↦ (
              foreign,
              check_resolved-IsPublic url lowered (addresses_of host lowered)
                  (rw (foreign, dotted) at h),
            )
          ]
  ]

  check_host-LeadsToPublic :
      (url : String) (found : Option String)
      → check_host host false url found ≡ ok tt
      → (hostname : String) × (found ≡ some hostname) × LeadsToPublic (lowered_of host hostname)
  unfolding check_host
  check_host-LeadsToPublic url none h = absurd (err_ok h)
  check_host-LeadsToPublic url (some hostname) h = elim (Bool-cases (str_eq hostname "")) [
    | inl nameless ↦ absurd (err_ok (rw (nameless) at h))
    | inr named ↦
        (hostname, refl, check_name-LeadsToPublic url (lowered_of host hostname) (rw (named) at h))
  ]

  -- A URL that is accepted, where private addresses are not allowed, is of http or https and has a host
  -- that is no local name; the name is an address or is resolved to one or more, and each of them
  -- is a public address, by every test of `ipaddress`.
  pub check_sync-LeadsToPublic :
      (url : String)
      → check_sync host false url ≡ ok tt
      → ((str_eq (host.lower (host.scheme url)) "http"
            || str_eq (host.lower (host.scheme url)) "https")
          ≡ true)
        × ((hostname : String) × (host.hostname url ≡ some hostname)
            × LeadsToPublic (lowered_of host hostname))
  unfolding check_sync
  check_sync-LeadsToPublic url h =
      let scheme = host.lower (host.scheme url) in
      elim (Bool-cases (str_eq scheme "http" || str_eq scheme "https")) [
        | inl web ↦ (web, check_host-LeadsToPublic url (host.hostname url) (rw (web) at h))
        | inr other ↦ absurd (err_ok (rw (other) at h))
      ]
