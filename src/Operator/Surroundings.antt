-- ===== src/Operator/Surroundings.antt =====
-- What a pass of the operator gets from outside (the API server, the clock, apimachinery) and the
-- state that it works on.
use multinic.Base.{String, Bool, List, Option, Result}
use multinic.Api.{Time}
use multinic.Api.Operator.{MultiNicOperator}
use multinic.Cluster.{Resource}
use multinic.Protection.{Fault, Polls, Removals}
use multinic.Operator.Quantities.{MustParse}

-- The calls for one object: SetControllerReference, Get, and Create or Update. The answer to a write
-- is what the server stores, with its defaults.
pub record Exchange : Type 0 where
  pub reference_fault : Option String
  pub get_fault : Option Fault
  pub write : Resource → Result Fault Resource

pub record Surroundings : Type 0 where
  pub must_parse : MustParse
  -- the object itself
  pub get_error : Option String
  pub update : MultiNicOperator → Result String (Option MultiNicOperator)
  pub status_fault : Option String
  -- controllerutil
  pub contains_finalizer : List String → String → Bool
  pub add_finalizer : List String → String → List String
  pub remove_finalizer : List String → String → List String
  -- the managed objects
  pub stateful_set : Exchange
  pub service : Exchange
  pub deployment : Exchange
  pub database_fault : Option Fault
  pub controller_fault : Option Fault
  pub polls : Polls
  pub removals : Removals
  -- time.Now
  pub database_check : Time
  pub controller_check : Time
  pub now : Time

-- The workloads and the operator's object in the API server.
pub record World : Type 0 where
  pub cluster : List Resource
  pub object : Option MultiNicOperator
