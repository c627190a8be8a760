-- ===== src/Rdma/Registration/Refresh.antt =====
-- `RdmaTransport::refreshLocalDeviceDesc` of
-- mooncake-transfer-engine/src/transport/rdma_transport/rdma_transport.cpp. The local segment's
-- descriptor is its list of devices; `publish` is `metadata_->updateLocalSegmentDesc`, which reads it.
use mooncake_maca_spdk_dmabu.Prelude.{
  ℕ, true, false, Option, none, some, List, [], ◌∷◌, ◌≡◌, ◌≢◌, ◌⊎◌, inl, inr, refl, sym, subst,
  arith, ◌==◌, if◌then◌else◌, Text, text_eq, Bool-cases, Option-cases, ==→eq,
}

pub record DeviceDesc : Type 0 where
  pub name : Text
  pub lid : ℕ
  pub gid : Text

unfoldable pub set_ids : ℕ → Text → DeviceDesc → DeviceDesc
set_ids lid gid d = record { name = d.name; lid = lid; gid = gid }

-- The loop over the devices; `none` is a name that none has.
unfoldable pub update_device : Text → ℕ → Text → List DeviceDesc → Option (List DeviceDesc)
update_device name lid gid [] = none
update_device name lid gid (d ∷ ds) =
    let rest = update_device name lid gid ds in
    if text_eq d.name name
    then some (set_ids lid gid d ∷ ds)
    else elim rest [ none ↦ none | some ds' ↦ some (d ∷ ds') ]

pub data RefreshResult : Type 0 where
  refreshed address_not_registered device_not_found : RefreshResult
  publish_failed : ℕ → RefreshResult

module _ (publish : List DeviceDesc → ℕ) where
  -- The result, the local segment afterwards, and what other nodes were given.
  unfoldable pub refresh_local_device_desc :
      Text → ℕ → Text → Option (List DeviceDesc) → RefreshResult × Option (List DeviceDesc)
  refresh_local_device_desc name lid gid none = (address_not_registered, none)
  refresh_local_device_desc name lid gid (some ds) = elim (update_device name lid gid ds) [
    | none ↦ (device_not_found, some ds)
    | some ds' ↦
        if publish ds' == 0 then (refreshed, some ds') else (publish_failed (publish ds'), some ds)
  ]

-- The first device with the name has the new identifiers, and nothing else differs.
abbrev pub Updates : Text → ℕ → Text → List DeviceDesc → List DeviceDesc → Type 0
Updates name lid gid [] new = ⊥
Updates name lid gid (d ∷ ds) [] = ⊥
Updates name lid gid (d ∷ ds) (e ∷ es) =
    ((text_eq d.name name ≡ true) × (e.name ≡ d.name) × (e.lid ≡ lid) × (e.gid ≡ gid) × (es ≡ ds))
    ⊎ ((text_eq d.name name ≡ false) × (e ≡ d) × Updates name lid gid ds es)

module _ (name : Text) (lid : ℕ) (gid : Text) where
  update_here :
      (d : DeviceDesc) (ds : List DeviceDesc)
      → text_eq d.name name ≡ true
      → update_device name lid gid (d ∷ ds) ≡ some (set_ids lid gid d ∷ ds)
  unfolding update_device
  update_here d ds e = ground arith

  update_there :
      (d : DeviceDesc) (ds new : List DeviceDesc)
      → text_eq d.name name ≡ false
      → update_device name lid gid (d ∷ ds) ≡ some new
      → (es : List DeviceDesc) × (update_device name lid gid ds ≡ some es) × (new ≡ d ∷ es)
  update_there d ds new e h = elim (Option-cases (update_device name lid gid ds)) [
    | inl q ↦ absurd (unfold update_device in ground arith)
    | inr (es, q) ↦ (es, q, unfold update_device in ground arith)
  ]

  update_device-Updates :
      (ds new : List DeviceDesc)
      → update_device name lid gid ds ≡ some new
      → Updates name lid gid ds new
  update_device-Updates [] new h = absurd (unfold update_device in cc)
  update_device-Updates (d ∷ ds) new h = elim (Bool-cases (text_eq d.name name)) [
    | inl e ↦
        let same : set_ids lid gid d ∷ ds ≡ new = cc (update_here d ds e) in
        subst (Updates name lid gid (d ∷ ds)) same
          (inl (e, unfold set_ids in refl, unfold set_ids in refl, unfold set_ids in refl, refl))
    | inr e ↦
        let (es, q, same) = update_there d ds new e h in
        subst (Updates name lid gid (d ∷ ds)) (sym same)
          (inr (e, refl, update_device-Updates ds es q))
  ]

  module _ (publish : List DeviceDesc → ℕ) (ds : List DeviceDesc) where
    abbrev refreshing : RefreshResult × Option (List DeviceDesc)
    refreshing = refresh_local_device_desc publish name lid gid (some ds)

    -- Refreshing a device either succeeds, and then the local segment differs in the identifiers of
    -- the first device with that name alone and is what was published; or it fails, and then the
    -- local segment is as before, although a changed one was published in between.
    pub refresh-Updates :
        ((refreshing.0 ≡ refreshed)
          × (new : List DeviceDesc) × (refreshing.1 ≡ some new)
          × Updates name lid gid ds new
          × (publish new ≡ 0))
        ⊎ ((refreshing.0 ≢ refreshed) × (refreshing.1 ≡ some ds))
    unfolding refresh_local_device_desc
    refresh-Updates = elim (Option-cases (update_device name lid gid ds)) [
      | inl q ↦ inr ((λ e. ground arith), ground arith)
      | inr (new, q) ↦ elim (Bool-cases (publish new == 0)) [
        | inl z ↦ inl (
          ground arith,
          new,
          ground arith,
          update_device-Updates ds new q,
          ==→eq (publish new) 0 z,
        )
        | inr z ↦ inr ((λ e. ground arith), ground arith)
      ]
    ]
