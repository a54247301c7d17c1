-- ===== src/Store/Containers/Allocate.antt =====
-- What `AllocateIP` answers, the save included.
use lxc2docker.Prelude.{ℕ, ◌≤◌, ◌≡◌, ◌≢◌, refl, some, arith, Option-cases, inl, inr, ◌⊎◌, In}
use lxc2docker.Dict.{values}
use lxc2docker.Store.Records.{ContainerRecord}
use lxc2docker.Store.State.{
  Store, SaveOutcome, saved, open_fails, encode_fails, close_fails, rename_fails,
  ip_space_exhausted, save,
}
use lxc2docker.Store.Ip.{parse_managed_ip_octet, managed_ip, allocate_octet}
use lxc2docker.Store.Ip.Octets.{not_used, is_used, parse-managed_ip}
use lxc2docker.Store.Ip.Allocate.{allocate_sound, allocate_complete}
use lxc2docker.Store.Containers.{allocate_ip}

not_exhausted : (w : SaveOutcome) (s : Store) → (save w s).1 ≢ some ip_space_exhausted
unfolding save
not_exhausted saved s = λ h. ground arith
not_exhausted open_fails s = λ h. ground arith
not_exhausted encode_fails s = λ h. ground arith
not_exhausted close_fails s = λ h. ground arith
not_exhausted rename_fails s = λ h. ground arith

module _ (w : SaveOutcome) (s : Store) (start : 2 ≤ s.state.next_ip) where
  -- If the counter is 2 or more: unless `AllocateIP` reports that the space is exhausted, it answers
  -- with the address of an octet from 2 to 254, which reads back as that octet and which no
  -- container holds. If it reports exhaustion, every octet from the counter up to 254 and every
  -- octet of the free list in the range is held by some container.
  pub allocate_ip_answers :
      ((allocate_ip w s).2 ≢ some ip_space_exhausted
        → (o : ℕ) × ((allocate_ip w s).1 ≡ managed_ip o)
          × (2 ≤ o)
          × (o ≤ 254)
          × (parse_managed_ip_octet (managed_ip o) ≡ some o)
          × ((r : ContainerRecord)
              → In r (values s.state.containers)
              → parse_managed_ip_octet r.ip_address ≢ some o))
      × ((allocate_ip w s).2 ≡ some ip_space_exhausted
          → (o : ℕ) → 2 ≤ o
          → o ≤ 254
          → (s.state.next_ip ≤ o) ⊎ In o s.state.free_ips
          → (r : ContainerRecord) × In r (values s.state.containers)
            × (parse_managed_ip_octet r.ip_address ≡ some o))
  unfolding allocate_ip
  allocate_ip_answers = elim (Option-cases (allocate_octet s.state).1) [
    | inl e ↦ (
      (λ h. absurd (h (rw (e, allocate_ip) refl))),
      λ h o lo hi f. is_used o (values s.state.containers) (allocate_complete s.state e o lo hi f),
    )
    | inr (o, e) ↦
        let (lo, hi, free) = allocate_sound s.state o start e in
        (
          (λ h. (
            o,
            rw (e, allocate_ip) refl,
            lo,
            hi,
            parse-managed_ip o lo hi,
            not_used o (values s.state.containers) free,
          )),
          λ h. absurd (
              not_exhausted w (record s { state = (allocate_octet s.state).0 })
                (rw (e, allocate_ip) at h)),
        )
  ]
