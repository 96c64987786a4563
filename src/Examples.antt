-- ===== src/Examples.antt =====
-- Runs of the model on small inputs, over a small codec in place of the protobuf runtime.
mod Codec
mod Connection
mod Writing
mod Calling
mod Histories
mod Serving
mod Exchanging
mod Helping
mod Copying
mod Parsing
mod Stopping
mod Connecting
mod Many
mod Counting
mod Posting
