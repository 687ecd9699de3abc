-- ===== src/Database/Schema.antt =====
-- The rows of the four tables that initializeDatabase declares
-- (MultiNic/internal/controller/openstackconfig_controller.go).
use multinic.Base.{ℕ, String, List}
use multinic.Api.{Time}

pub record SubnetRow : Type 0 where
  pub subnet_id : String
  pub subnet_name : String
  pub cidr : String
  pub network_id : String
  pub status : String
  pub created_at : Time
  pub modified_at : Time

pub record NodeRow : Type 0 where
  pub attached_node_id : String
  pub attached_node_name : String
  pub status : String
  pub created_at : Time
  pub modified_at : Time

pub record InterfaceRow : Type 0 where
  pub port_id : String
  pub subnet_id : String
  pub macaddress : String
  pub attached_node_id : String
  pub attached_node_name : String
  pub cr_namespace : String
  pub cr_name : String
  pub status : String
  pub netplan_success : ℕ
  pub created_at : Time
  pub modified_at : Time

pub record StateRow : Type 0 where
  pub cr_namespace : String
  pub cr_name : String
  pub spec_hash : String

pub record Tables : Type 0 where
  pub multi_subnet : List SubnetRow
  pub node_table : List NodeRow
  pub multi_interface : List InterfaceRow
  pub cr_state : List StateRow
