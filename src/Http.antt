-- ===== src/Http.antt =====
-- The library of src/http: the path cleaner and the response writers.
pub mod CleanPath
pub mod Response
