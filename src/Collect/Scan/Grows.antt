-- ===== src/Collect/Scan/Grows.antt =====
-- internal/collect/scan.go: the ledger of deliveries when a sink accepts another batch.
use omni_token.Prelude.{String, Option, List, ◌⊎◌, inl, inr}
use omni_token.Model.Event.{Event}
use omni_token.Model.Snapshot.{QuotaSnapshot}
use omni_token.Collect.State.{State, Disk, missing, unreadable, corrupt, holds, Process}
use omni_token.Collect.Scan.Names.{EventNamed, QuotaNamed}
use omni_token.Collect.Scan.Sound.{SoundState, SoundDisk, SoundProcess}

module _ (events_digest : List Event → Option String)
    (quotas_digest : List QuotaSnapshot → Option String) where
  -- More accepted batches keep the ledger sound.
  pub SoundState-grows :
      (events events' : List (List Event)) (quotas quotas' : List (List QuotaSnapshot)) (s : State)
      → ((key : String)
          → EventNamed events_digest quotas_digest events key
          → EventNamed events_digest quotas_digest events' key)
      → ((key : String)
          → QuotaNamed events_digest quotas_digest quotas key
          → QuotaNamed events_digest quotas_digest quotas' key)
      → SoundState events_digest quotas_digest events quotas s
      → SoundState events_digest quotas_digest events' quotas' s
  SoundState-grows events events' quotas quotas' s f g k = record {
    delivered = λ file scan key held told. either key (k.delivered file scan key held told);
    chunks = λ file m i key held told. f key (k.chunks file m i key held told);
  }
    where
      either :
          (key : String)
          → EventNamed events_digest quotas_digest events key
            ⊎ QuotaNamed events_digest quotas_digest quotas key
          → EventNamed events_digest quotas_digest events' key
            ⊎ QuotaNamed events_digest quotas_digest quotas' key
      either key (inl e) = inl (f key e)
      either key (inr q) = inr (g key q)

  pub SoundProcess-grows :
      (events events' : List (List Event)) (quotas quotas' : List (List QuotaSnapshot))
      (p : Process)
      → ((key : String)
          → EventNamed events_digest quotas_digest events key
          → EventNamed events_digest quotas_digest events' key)
      → ((key : String)
          → QuotaNamed events_digest quotas_digest quotas key
          → QuotaNamed events_digest quotas_digest quotas' key)
      → SoundProcess events_digest quotas_digest events quotas p
      → SoundProcess events_digest quotas_digest events' quotas' p
  SoundProcess-grows events events' quotas quotas' p f g k = record {
    memory = SoundState-grows events events' quotas quotas' p.memory f g k.memory;
    disk = on_disk p.disk k.disk;
  }
    where
      on_disk :
          (d : Disk)
          → SoundDisk events_digest quotas_digest events quotas d
          → SoundDisk events_digest quotas_digest events' quotas' d
      on_disk (holds s) h = SoundState-grows events events' quotas quotas' s f g h
      on_disk missing h = tt
      on_disk unreadable h = tt
      on_disk corrupt h = tt
