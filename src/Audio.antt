-- ===== src/Audio.antt =====
-- apps/companion-core/src/audio.rs: from the microphone to the encoder, and from the decoder to the
-- speaker. `f32` is an argument (`Float.Float`), and so are Opus, RNNoise and the devices of cpal.
-- A thread's loop is one step for each packet, frame or round; what the threads share is handed from
-- step to step.
pub mod Float
pub mod Decimals
pub mod Buffers
pub mod Streams
pub mod Gains
pub mod Dsp
pub mod Radio
pub mod Earcon
pub mod Decode
pub mod Encode
pub mod Mixer
pub mod Rig
pub mod Devices
mod Tests
