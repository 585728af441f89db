-- ===== src/Tests/Flows.antt =====
-- What becomes of a block that is handed over, of samples that are submitted, and of a worker that
-- is told to stop.
use obs_rvc.Prelude.{◌⊎◌, ℕ, ◌≤◌, ◌≡◌, ◌++◌, refl, true, [], ◌+◌, ◌<◌, ◌^◌, arith}
use obs_rvc.Stream.Queue
use obs_rvc.Conversion.Frames
use obs_rvc.Conversion.Codec
use obs_rvc.Conversion.Codec.{AudioData}
use obs_rvc.Conversion.Worker
use obs_rvc.Conversion.Worker.{receive_take, stop, submit, reset}
use obs_rvc.Conversion.Loop.{take_job, is_ready}
use obs_rvc.Conversion.System.{
  System, delivered, Step, hand_over, take_call, leave, exited, Reach, here, next, begun, begin,
  submit_call,
}
use obs_rvc.Conversion.System.Promises.{output_of}
use obs_rvc.Conversion.System.Flow.{handed, taken, output_flows}
use obs_rvc.Conversion.System.Feed.{input_of, submitted, blocks, input_flows}
use obs_rvc.Conversion.System.Exit.{of_thread, thread_steps, stop-ends}
use obs_rvc.Tests.Sample.{whole_floats, options, ten_frames, request, two_samples}
use obs_rvc.Tests.Systems.{
  filled, filled-Reach, filled_ready, filled_going, started, first_job, first_block, handing_over,
  handing_over-Reach, handing_over_stage,
}

-- The block is handed over, and two frames of it are asked for.
abbrev handed_over : System ℕ
handed_over = delivered handing_over first_job first_block

abbrev asked : System ℕ
asked = record handed_over { worker = (receive_take handed_over.worker [] 2 1).1 }

abbrev asked-Reach : Reach 8 handing_over asked
asked-Reach =
    next (next here (hand_over handing_over first_job first_block handing_over_stage))
      (take_call handed_over [] 2 1)

output_flows_example :
    output_of handing_over ++ handed asked-Reach ≡ taken asked-Reach ++ output_of asked
output_flows_example = output_flows options 1 handing_over-Reach asked-Reach ((tt, tt), tt)

-- Told to stop, the thread is out of its loop by one step.
abbrev told : System ℕ
told = record filled { worker = stop filled.worker }

abbrev left : System ℕ
left = record told { stage = exited }

told_stopping : told.worker.stopping ≡ true
unfolding stop
told_stopping = refl

told_ready : is_ready told.worker ≡ true
unfolding is_ready stop
told_ready = refl

told-Reach : Reach 8 told left
told-Reach = next here (leave told refl told_ready told_stopping)

stop-ends_example :
    (thread_steps told-Reach ≤ 3)
    × ((left.stage ≡ exited) ⊎ ((u : System ℕ) × ((step : Step 8 left u) × (of_thread step ≡ 1))))
    × (is_ready left.worker ≡ true)
stop-ends_example = stop-ends request two_samples told_stopping told-Reach

-- A conversion begins, and three more frames are submitted.
abbrev three_frames : AudioData ℕ
three_frames = record ten_frames { frames = 3 }

abbrev fed : System ℕ
fed = record started { worker = submit 8 started.worker three_frames 100 1 }

started_early : started.worker.generation + 2 < 2 ^ 64
unfolding begun take_job submit Codec.copy_audio_to_mono Codec.has_planes Worker.enqueue reset
    obs_rvc.Conversion.System.new_worker Worker.trim_input Frames.conversion_frame_count
    Worker.adopt_format Frames.frame_count_for_duration Queue.append Queue.grow Codec.mono_from
    Queue.write_back Queue.ensure_capacity Queue.clear
started_early = omega arith

abbrev fed-Reach : Reach 8 filled fed
fed-Reach =
    next (next here (begin filled [] [] refl filled_ready filled_going)) (
      submit_call started three_frames 100 1 (omega arith) (omega arith) (omega arith)
        started_early)

same_generation : fed.worker.generation ≡ filled.worker.generation
unfolding begun take_job submit Codec.copy_audio_to_mono Codec.has_planes Worker.enqueue reset
    obs_rvc.Conversion.System.new_worker Worker.trim_input Frames.conversion_frame_count
    Worker.adopt_format Frames.frame_count_for_duration Queue.append Queue.grow Codec.mono_from
    Queue.write_back Queue.ensure_capacity Queue.clear Queue.discard Queue.write_at Queue.expanded
    obs_rvc.Prelude.memcpy
same_generation = refl

input_flows_example : input_of filled ++ submitted fed-Reach ≡ blocks fed-Reach ++ input_of fed
input_flows_example = input_flows options 1 filled-Reach fed-Reach same_generation
