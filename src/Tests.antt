-- ===== src/Tests.antt =====
-- Concrete inputs for the theorems: each `_example` applies one theorem to a request, a key or a run.
mod Samples
mod UrlExamples
mod WorkExamples
mod EndpointExamples
mod KeyExamples
mod ResizeExamples
mod AvifExamples
mod GuardExamples
mod ApiExamples
mod ImageExamples
mod StorageExamples
