-- ===== src/Engines/Inventory.antt =====
-- kernel/src/main.cpp: the engines that are built in for tests, and the metadata that describes an
-- engine to a client.
use madre.Base.{
  ℕ, ◌*◌, List, [], ◌∷◌, ◌++◌, Bool, Text, codes, assign, to_string, to_string_i32, if◌then◌else◌,
}
use madre.Protocol.{Frame, Metadata}
use madre.Engines.{EngineDescriptorFacts, join_csv}

abbrev pub mib : ℕ
mib = 1024 * 1024

abbrev text_generation : Text
text_generation = codes "text-generation/v1"

abbrev pub local_worker_process : Text
local_worker_process = codes "LOCAL_WORKER_PROCESS"

abbrev pub available : Text
available = codes "AVAILABLE"

unfoldable pub fake_engine_inventory : List EngineDescriptorFacts
fake_engine_inventory =
    record {
      id = codes "fake-standard";
      work_types = text_generation ∷ [];
      capabilities = codes "basic-text" ∷ [];
      model_ids = codes "standard-v1" ∷ codes "shared-v1" ∷ [];
      supported_efforts = codes "STANDARD" ∷ [];
      placement = local_worker_process;
      availability = available;
      resources = record { cpu_slots = 1; ram_bytes = 64 * mib; gpu_id = []; gpu_vram_bytes = 0 };
    }
    ∷ record {
      id = codes "fake-capable";
      work_types = text_generation ∷ [];
      capabilities = codes "basic-text" ∷ codes "structured-output" ∷ codes "long-context" ∷ [];
      model_ids = codes "high-v1" ∷ codes "shared-v1" ∷ [];
      supported_efforts = codes "STANDARD" ∷ codes "HIGH" ∷ [];
      placement = local_worker_process;
      availability = available;
      resources = record {
        cpu_slots = 1;
        ram_bytes = 96 * mib;
        gpu_id = codes "fake-gpu-0";
        gpu_vram_bytes = 64 * mib;
      };
    }
    ∷ record {
      id = codes "fake-vision";
      work_types = text_generation ∷ [];
      capabilities = codes "basic-text" ∷ codes "image-input" ∷ [];
      model_ids = codes "vision-v1" ∷ [];
      supported_efforts = codes "HIGH" ∷ [];
      placement = local_worker_process;
      availability = available;
      resources = record {
        cpu_slots = 1;
        ram_bytes = 96 * mib;
        gpu_id = codes "fake-gpu-0";
        gpu_vram_bytes = 96 * mib;
      };
    }
    ∷ []

-- The entries in the order in which they are written.
abbrev pub descriptor_entries : EngineDescriptorFacts → Bool → List (Text × Text)
descriptor_entries descriptor warm =
    (codes "id", descriptor.id)
    ∷ (codes "work_types", join_csv descriptor.work_types)
    ∷ (codes "capabilities", join_csv descriptor.capabilities)
    ∷ (codes "model_ids", join_csv descriptor.model_ids)
    ∷ (codes "supported_efforts", join_csv descriptor.supported_efforts)
    ∷ (codes "placement", descriptor.placement)
    ∷ (codes "availability", descriptor.availability)
    ∷ (codes "required_cpu_slots", to_string_i32 descriptor.resources.cpu_slots)
    ∷ (codes "required_ram_bytes", to_string descriptor.resources.ram_bytes)
    ∷ (codes "required_gpu_id", descriptor.resources.gpu_id)
    ∷ (codes "required_gpu_vram_bytes", to_string descriptor.resources.gpu_vram_bytes)
    ∷ (codes "warm", if warm then codes "true" else codes "false")
    ∷ []

-- `frame.metadata[base + key] = value;` for each of them.
unfoldable pub assign_all : Text → List (Text × Text) → Metadata → Metadata
assign_all base [] metadata = metadata
assign_all base ((key, value) ∷ rest) metadata =
    assign_all base rest (assign (base ++ key) value metadata)

unfoldable pub add_engine_descriptor : Frame → Text → EngineDescriptorFacts → Bool → Frame
add_engine_descriptor frame base descriptor warm = record frame {
  metadata = assign_all base (descriptor_entries descriptor warm) frame.metadata;
}
