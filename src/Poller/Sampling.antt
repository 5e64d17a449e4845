-- ===== src/Poller/Sampling.antt =====
-- internal/poller/poller.go, `maybeSample`, and `PruneSamples` of internal/store/samples.go.
use birdy.Common.{ℕ, ◌+◌, ◌-◌, not, ◌||◌, List, [], ◌∷◌, ◌++◌, some, if◌then◌else◌, ◌==◌, ltb}
use birdy.Birdc.Types.{ChannelDetail}
use birdy.Poller.{ProtoState}
use birdy.Poller.State.{Poller, Sample, due, is_bgp}

imported_of : List ChannelDetail → ℕ
imported_of [] = 0
imported_of (ch ∷ chs) = ch.routes_imported + imported_of chs

exported_of : List ChannelDetail → ℕ
exported_of [] = 0
exported_of (ch ∷ chs) = ch.routes_exported + exported_of chs

abbrev sample_of : ℕ → ProtoState → List Sample
sample_of now st = if not (is_bgp st.summary) || not st.up then [] else elim st.channels [
  | [] ↦ []
  | ch ∷ chs ↦
      (record {
        at = now;
        protocol = st.summary.name;
        imported = imported_of (ch ∷ chs);
        exported = exported_of (ch ∷ chs);
      })
      ∷ []
]

take_samples : ℕ → List ProtoState → List Sample
unfolding imported_of exported_of
take_samples now [] = []
take_samples now (st ∷ states) = sample_of now st ++ take_samples now states

-- `PruneSamples`: the samples before the cut are deleted.
prune_samples : ℕ → List Sample → List Sample
prune_samples cut [] = []
prune_samples cut (s ∷ samples) =
    let rest = prune_samples cut samples in if ltb s.at cut then rest else s ∷ rest

unfoldable pub maybe_sample : Poller → List ProtoState → ℕ → Poller
unfolding due take_samples prune_samples
maybe_sample p states now =
    if p.sample_interval == 0
    then p
    else if not (due now p.sample_interval p.last_sample)
    then p
    else let all = p.samples ++ take_samples now states in
      record p {
        last_sample = some now;
        samples = if p.sample_retain == 0 then all else prune_samples (now - p.sample_retain) all;
      }
