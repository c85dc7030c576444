-- ===== src/EventLoop/Samples.antt =====
-- A session with an encoder, over a mock of the arithmetic, for the tests.
use Prim.Native.Nat.{ℕ, ◌+◌, ◌*◌, ◌-◌, ◌/◌, max, min}
use beta.Base.{true, false, Option, none, some, List, [], ◌∷◌, Text, take, ltb, leb, nat_equal}
use beta.Command.{Command}
use beta.Engine.{Engine, Session, TsConnection, new_connection, new_session, new_engine}
use beta.EventLoop.Wire.{Sent}
use beta.EventLoop.Vad.{Floats}
use beta.EventLoop.Execute.{Outside}

-- A sample is its square, and a root is its square.
abbrev pub mock : Floats
mock = record {
  add = ◌+◌;
  sub = ◌-◌;
  mul = ◌*◌;
  div = ◌/◌;
  max = max;
  min = min;
  abs = λ x. x;
  sqrt = λ x. x;
  lt = ltb;
  le = leb;
  is_finite = λ x. true;
  clamp = λ x low high. x;
  of_nat = λ n. n;
}

-- The encoder counts its frames and keeps their first sample.
abbrev pub encode_first : ℕ → List ℕ → ℕ × Option (List ℕ)
encode_first frames samples = (frames + 1, some (take 1 samples))

abbrev pub working : List Sent → Option Text
working sent = none

abbrev pub outside : Outside ℕ
outside = record {
  f32 = mock;
  encode = encode_first;
  failure = working;
  upload_handle = λ sent. some 1;
  is_ip_addr = λ s. false;
  gain_of = λ db. db;
  decibels_of = λ gain. gain;
}

abbrev pub speaking : TsConnection
speaking = record new_connection {
  connected = true;
  audio_encoder = true;
  vad_enabled = true;
  audio_seq = 65535;
}

abbrev pub started : Session (List Command)
started = new_session 1 speaking 0

abbrev pub engine : Engine (List Command)
engine = record new_engine { sessions = (1, started) ∷ [] }
