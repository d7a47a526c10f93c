-- ===== src/Net/Stack/Arp.antt =====
-- The ARP cache as a map from addresses to hardware addresses.
use dosfs.Prelude.{
  ℕ, ◌≡◌, ◌⊎◌, refl, inl, inr, Bool, true, false, not, ◌||◌, none, some, List, [], ◌∷◌, arith,
  Bool-cases, if◌then◌else◌, is_zero_iff,
}
use dosfs.Libc.{memcmp}
use dosfs.Libc.Copy.{memcmp_self}
use dosfs.Net.Stack.{ArpEntry, entry_for, update_entry, fill_entry, arp_cache_add, arp_lookup}

-- whether the cache has an entry that is not in use
unfoldable pub has_free : List ArpEntry → Bool
has_free [] = false
has_free (e ∷ es) = not e.valid || has_free es

entry_for_self :
    (ip mac : List ℕ) → entry_for ip (record { ip = ip; mac = mac; valid = true }) ≡ true
unfolding entry_for
entry_for_self ip mac = (is_zero_iff (memcmp ip ip 4)).1 (memcmp_self ip 4)

entry_for-valid : (ip : List ℕ) (e : ArpEntry) → entry_for ip e ≡ true → e.valid ≡ true
unfolding entry_for
entry_for-valid ip e h = ground arith

-- The first loop finds no entry of the address, or gives it the new hardware address.
update_entry-cases :
    (ip mac : List ℕ) (es : List ArpEntry)
    → ((update_entry ip mac es ≡ none) × (arp_lookup ip es ≡ none))
      ⊎ ((es' : List ArpEntry) × (old : List ℕ) × (update_entry ip mac es ≡ some es')
          × (arp_lookup ip es' ≡ some mac)
          × (arp_lookup ip es ≡ some old))
unfolding update_entry arp_lookup entry_for
update_entry-cases ip mac [] = inl (refl, refl)
update_entry-cases ip mac (e ∷ es) = elim (Bool-cases (entry_for ip e)) [
  | inl here ↦
      let e' : ArpEntry = record e { mac = mac } in
      inr (e' ∷ es, e.mac, ground arith, ground arith, ground arith)
  | inr other ↦ elim (update_entry-cases ip mac es) [
    | inl (a, b) ↦ inl (ground arith, ground arith)
    | inr (es', old, a, b, c) ↦ inr (e ∷ es', old, ground arith, ground arith, ground arith)
  ]
]

fill_entry-lookup :
    (ip mac : List ℕ) (es : List ArpEntry)
    → arp_lookup ip es ≡ none
    → arp_lookup ip (fill_entry ip mac es) ≡ (if has_free es then some mac else none)
unfolding fill_entry arp_lookup has_free
fill_entry-lookup ip mac [] h = refl
fill_entry-lookup ip mac (e ∷ es) h =
    ground (arith, fill_entry-lookup ip mac es, entry_for_self ip mac)

-- After `arp_cache_add` the cache holds the hardware address of the address, if it knew the address or
-- had an entry that was not in use; a full cache takes no new address.
pub arp_cache_add-lookup :
    (ip mac : List ℕ) (es : List ArpEntry)
    → arp_lookup ip (arp_cache_add ip mac es) ≡ elim (arp_lookup ip es) [
      | some old ↦ some mac
      | none ↦ if has_free es then some mac else none
    ]
unfolding arp_cache_add
arp_cache_add-lookup ip mac es = elim (update_entry-cases ip mac es) [
  | inl (e, free) ↦ rw (arp_cache_add, e, free) (fill_entry-lookup ip mac es free)
  | inr (es', old, e, found, known) ↦ rw (arp_cache_add, e, known) found
]
