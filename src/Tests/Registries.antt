-- ===== src/Tests/Registries.antt =====
-- Two workers in turn, with `stop_all` between them.
use mathlib.Core.List.{Nodup}
use obs_rvc.Prelude.{ℕ, ◌+◌, ◌<◌, ◌^◌, map, arith}
use obs_rvc.Conversion.Registry.{
  Registry, no_workers, construct, register, called, stop_all, submitting, constructing,
  registering, calling, History, nothing, after,
}
use obs_rvc.Conversion.Registry.Shutdown.{
  stream_of, AllStopped, identities_distinct, stop_all-lasts,
}
use obs_rvc.Tests.Sample.{whole_floats, options, ten_frames}

abbrev pub one : Registry ℕ
one = register (construct no_workers options 16) 16

abbrev pub one-History : History no_workers one
unfolding no_workers
one-History =
    after (after nothing (constructing no_workers options 16 (omega arith)))
      (registering (construct no_workers options 16) 16)

abbrev working_one : Registry ℕ
working_one = called one 16 (submitting 8 ten_frames 100 1)

working_one-History : History no_workers working_one
working_one-History = after one-History (calling one 16 (submitting 8 ten_frames 100 1))

abbrev two : Registry ℕ
two = register (construct (stop_all working_one) options 32) 32

few_identities : (stop_all working_one).next_stream_id + 1 < 2 ^ 64
unfolding stop_all called register construct no_workers
few_identities = omega arith

two-History : History (stop_all working_one) two
two-History =
    after (after nothing (constructing (stop_all working_one) options 32 few_identities))
      (registering (construct (stop_all working_one) options 32) 32)

identities_distinct_example : Nodup (map stream_of working_one.objects)
identities_distinct_example = identities_distinct working_one-History

stop_all-lasts_example : AllStopped two.objects
stop_all-lasts_example = stop_all-lasts working_one-History two-History
