-- ===== src/UrlPolicy/Tests.antt =====
-- A host that resolves one name, and the addresses 93.184.216.34, 10.0.0.1 and 100.64.0.1 as their texts.
use flycanon.Prelude.{
  ◌≡◌, refl, ◌||◌, String, str_eq, true, false, Option, none, some, [], ◌∷◌, if◌then◌else◌,
}
use flycanon.Prelude.Actions.{err}
use flycanon.UrlPolicy.{
  Host, shared_space, private_network, forbidden_address, forbidden_host, single_label, reason_of,
  address_is_forbidden, addresses_of, check_addresses, check_resolved, check_name, lowered_of,
  check_host, check_sync,
}
use flycanon.UrlPolicy.Public.{LeadsToPublic, check_sync-LeadsToPublic}

abbrev address : String → Option String
address text =
    if str_eq text "93.184.216.34" || (str_eq text "10.0.0.1" || str_eq text "100.64.0.1")
    then some text
    else none

-- The URLs here are their hosts.
abbrev host : Host String
host = record {
  scheme = λ url. "https";
  hostname = λ url. some url;
  lower = λ s. s;
  rstrip_dots = λ s. s;
  ends_with = λ s suffix. false;
  ip_address = address;
  ipv4_mapped = λ a. none;
  is_loopback = λ a. false;
  is_link_local = λ a. false;
  is_private = λ a. str_eq a "10.0.0.1";
  is_multicast = λ a. false;
  is_reserved = λ a. false;
  is_unspecified = λ a. false;
  is_site_local = λ a. false;
  version = λ a. 4;
  in_shared_space = λ a. str_eq a "100.64.0.1";
  is_global = λ a. str_eq a "93.184.216.34";
  resolve = λ name.
      if str_eq name "mixed.example"
      then some ("93.184.216.34" ∷ "10.0.0.1" ∷ [])
      else some ("93.184.216.34" ∷ []);
}

-- One forbidden answer of the resolver is enough, and a name of one label is not resolved.
refused :
    (check_sync host false "mixed.example"
      ≡ err (forbidden_host "mixed.example" (forbidden_address "10.0.0.1" private_network)))
    × (check_sync host false "100.64.0.1"
        ≡ err (forbidden_host "100.64.0.1" (forbidden_address "100.64.0.1" shared_space)))
    × (check_sync host false "postgres" ≡ err (forbidden_host "postgres" single_label))
unfolding check_sync check_host check_name check_resolved check_addresses addresses_of
    address_is_forbidden reason_of
refused = (refl, refl, refl)

check_sync-LeadsToPublic_example :
    ((str_eq (host.lower (host.scheme "a.example")) "http"
        || str_eq (host.lower (host.scheme "a.example")) "https")
      ≡ true)
    × ((hostname : String) × (host.hostname "a.example" ≡ some hostname)
        × LeadsToPublic host (lowered_of host hostname))
unfolding check_sync check_host check_name check_resolved check_addresses addresses_of
    address_is_forbidden reason_of
check_sync-LeadsToPublic_example = check_sync-LeadsToPublic host "a.example" refl
