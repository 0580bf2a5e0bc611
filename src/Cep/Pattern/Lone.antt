-- ===== src/Cep/Pattern/Lone.antt =====
-- tflo-cep/src/pattern.rs: a builder whose only step is a `not_then`.
use tflo.Cep.Match
use tflo.Cep.Match.{Match}
use tflo.Cep.Runtime.{new as new_runtime}
use tflo.Cep.Pattern
use tflo.Cep.Pattern.{Pattern}
