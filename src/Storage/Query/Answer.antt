-- ===== src/Storage/Query/Answer.antt =====
-- The whole of `query_device`: the device of a drive, and the handles.
use hardware_monitor_azk.Base.{
  ℕ, suc, ◌%◌, ◌^◌, ◌≡◌, refl, sym, arith, Bool, true, false, List, [], ◌∷◌, ◌++◌, Option, none,
  some, replicate,
}
use hardware_monitor_azk.Buffer.{Bytes}
use mathlib.Core.Path.{subst}
use mathlib.Core.Option.{some-injective}
use mathlib.Core.List.{append_assoc}
use hardware_monitor_azk.Base.{length-replicate}
use hardware_monitor_azk.Buffer.Returns.{Returns, returns, Returns->>=, Returns-if, Returns-mono}
use hardware_monitor_azk.Buffer.Text.{text_of}
use hardware_monitor_azk.Smbios.Types.{IsField}
use hardware_monitor_azk.Storage.Types.{
  StorageBusType, storage_bus_unknown, StorageDevice, zero_device, Descriptor, Drive, System,
  Handle, query_handle, read_handle, HandleEvent, opened, closed,
}
use hardware_monitor_azk.Storage.Query.{
  map_bus_type, is_nvme, read_descriptor, try_nvme_identify, read_capacity, query_drive,
}
use hardware_monitor_azk.Storage.Query.Device.{
  IsDescriptor, IsDrive, HoldsText, HasFields, IsDescribed, read_descriptor-Returns,
  trim_copy-Returns,
}

abbrev pub bus_of : Option Descriptor → StorageBusType
bus_of none = storage_bus_unknown
bus_of (some d) = map_bus_type d.descriptor_bus_type

-- The capacity that one of the two handles gives.
abbrev pub capacity_of : Option ℕ → Option (Option ℕ) → Option ℕ
capacity_of (some bytes) readable = some bytes
capacity_of none none = none
capacity_of none (some bytes) = bytes

abbrev pub HasCapacity : Option ℕ → StorageDevice → Type 0
HasCapacity none dev = (dev.capacity_available ≡ false) × (dev.capacity_bytes ≡ 0)
HasCapacity (some bytes) dev =
    (dev.capacity_available ≡ true) × (dev.capacity_bytes ≡ bytes % 2 ^ 64)

abbrev HoldsIdentify : Bytes → StorageDevice → Type 0
HoldsIdentify identify dev =
    HoldsText dev.serial identify 4 20
    × HoldsText dev.model identify 24 40
    × HoldsText dev.firmware_revision identify 64 8

-- The device is the drive's.
pub record IsDevice (sys : System) (index : ℕ) (d : Drive) (dev : StorageDevice) : Type 0 where
  pub fields : HasFields dev
  pub number : dev.index ≡ index
  pub bus : dev.bus_type ≡ bus_of d.device_property
  pub described :
      dev.nvme_identify_used ≡ false
      → (p : Descriptor) → d.device_property ≡ some p
      → IsDescribed p dev
  pub identified :
      dev.nvme_identify_used ≡ true
      → (sys.has_protocol_data ≡ true)
        × (is_nvme dev.bus_type ≡ true)
        × ((identify : Bytes) × (d.nvme_identify ≡ some identify) × HoldsIdentify identify dev)
  pub capacity : HasCapacity (capacity_of d.length_info d.readable_length_info) dev

-- Each handle that is opened is closed, the last one first.
pub data Balanced : List HandleEvent → Type 0 where
  nothing : Balanced []
  brackets :
      (h : Handle) (inner rest : List HandleEvent)
      → Balanced inner
      → Balanced rest
      → Balanced (opened h ∷ (inner ++ (closed h ∷ rest)))

pub Balanced-append : {xs ys : List HandleEvent} → Balanced xs → Balanced ys → Balanced (xs ++ ys)
Balanced-append nothing k = k
Balanced-append {ys = ys} (brackets h inner rest b c) k =
    subst (λ events. Balanced (opened h ∷ events)) (sym (append_assoc inner (closed h ∷ rest) ys))
      (brackets h inner (rest ++ ys) b (Balanced-append c k))

IsField-replicate : (n : ℕ) → IsField (suc n) (replicate (suc n) 0)
unfolding text_of
IsField-replicate n = record { size = length-replicate (suc n) 0; terminated = omega arith }

-- Without identify data: the state behind the descriptor.
record IsPlain (index : ℕ) (property : Option Descriptor) (dev : StorageDevice) : Type 0 where
  fields : HasFields dev
  number : dev.index ≡ index
  bus : dev.bus_type ≡ bus_of property
  described : (p : Descriptor) → property ≡ some p → IsDescribed p dev
  unused : dev.nvme_identify_used ≡ false
  unmeasured : (dev.capacity_available ≡ false) × (dev.capacity_bytes ≡ 0)

plain :
    (index : ℕ) (property : Option Descriptor)
    → ((p : Descriptor) → property ≡ some p → IsDescriptor p)
    → Returns
        (IsPlain index property)
        (read_descriptor property (record zero_device { index = index }))
unfolding read_descriptor
plain index none h = returns _ (record {
  fields = record {
    model = IsField-replicate 79;
    firmware_revision = IsField-replicate 31;
    serial = IsField-replicate 79;
  };
  number = refl;
  bus = refl;
  described = λ p e. cc;
  unused = refl;
  unmeasured = (refl, refl);
})
plain index (some d) h =
    Returns-mono
      (read_descriptor-Returns d (record zero_device { index = index }) (h d refl)
        (record {
          model = IsField-replicate 79;
          firmware_revision = IsField-replicate 31;
          serial = IsField-replicate 79;
        }))
      λ dev k. record {
        fields = k.0;
        number = k.2;
        bus = k.3;
        described = λ p e. subst (λ q. IsDescribed q dev) (some-injective _ _ e) k.1;
        unused = k.4;
        unmeasured = (k.5, k.6);
      }

-- Behind the query for identify data, which may have been answered.
record IsNamed (sys : System) (index : ℕ) (d : Drive) (dev : StorageDevice) : Type 0 where
  fields : HasFields dev
  number : dev.index ≡ index
  bus : dev.bus_type ≡ bus_of d.device_property
  described :
      dev.nvme_identify_used ≡ false
      → (p : Descriptor) → d.device_property ≡ some p
      → IsDescribed p dev
  identified :
      dev.nvme_identify_used ≡ true
      → (sys.has_protocol_data ≡ true)
        × (is_nvme dev.bus_type ≡ true)
        × ((identify : Bytes) × (d.nvme_identify ≡ some identify) × HoldsIdentify identify dev)
  unmeasured : (dev.capacity_available ≡ false) × (dev.capacity_bytes ≡ 0)

IsPlain-IsNamed :
    (sys : System) (index : ℕ) (d : Drive) (dev : StorageDevice)
    → IsPlain index d.device_property dev
    → IsNamed sys index d dev
IsPlain-IsNamed sys index d dev h = record {
  fields = h.fields;
  number = h.number;
  bus = h.bus;
  described = λ _. h.described;
  identified = λ used. ground (arith, h.unused);
  unmeasured = h.unmeasured;
}

named :
    (sys : System) (index : ℕ) (d : Drive) (dev : StorageDevice) (has : Bool)
    (identify : Option Bytes)
    → sys.has_protocol_data ≡ has
    → d.nvme_identify ≡ identify
    → IsDrive d
    → IsPlain index d.device_property dev
    → is_nvme dev.bus_type ≡ true
    → Returns (IsNamed sys index d) (try_nvme_identify has identify dev)
unfolding try_nvme_identify
named sys index d dev false identify eh ei drive h nvme =
    returns dev (IsPlain-IsNamed sys index d dev h)
named sys index d dev true none eh ei drive h nvme = returns dev (IsPlain-IsNamed sys index d dev h)
named sys index d dev true (some identify) eh ei drive h nvme =
    let size = drive.identify identify ei in
    Returns->>=
      (trim_copy-Returns dev.serial identify 80 4 20 h.fields.serial (omega arith) (omega arith))
      λ s hs.
        Returns->>=
          (trim_copy-Returns dev.model identify 80 24 40 h.fields.model (omega arith) (omega arith))
          λ m hm.
            Returns->>=
              (trim_copy-Returns dev.firmware_revision identify 32 64 8 h.fields.firmware_revision
                (omega arith) (omega arith))
              λ f hf. returns _ (record {
                fields = record { model = hm.0; firmware_revision = hf.0; serial = hs.0 };
                number = h.number;
                bus = h.bus;
                described = λ unused. cc;
                identified = λ _. (eh, nvme, (identify, ei, (hs.1, hm.1, hf.1)));
                unmeasured = h.unmeasured;
              })

IsNamed-measured :
    (sys : System) (index : ℕ) (d : Drive) (dev : StorageDevice) (available : Bool) (bytes : ℕ)
    → IsNamed sys index d dev
    → let dev' = record dev { capacity_available = available; capacity_bytes = bytes } in
      HasCapacity (capacity_of d.length_info d.readable_length_info) dev'
      → IsDevice sys index d dev'
IsNamed-measured sys index d dev available bytes h capacity = record {
  fields = record {
    model = h.fields.model;
    firmware_revision = h.fields.firmware_revision;
    serial = h.fields.serial;
  };
  number = h.number;
  bus = h.bus;
  described = λ unused p e.
      let k = h.described unused p e in
      record {
        product = k.product;
        vendor = k.vendor;
        revision = k.revision;
        serial_number = k.serial_number;
      };
  identified = h.identified;
  capacity = capacity;
}

query_alone : Balanced (opened query_handle ∷ closed query_handle ∷ [])
query_alone = brackets query_handle [] [] nothing nothing

measured :
    (sys : System) (index : ℕ) (d : Drive) (dev : StorageDevice) (info : Option ℕ)
    (readable : Option (Option ℕ))
    → d.length_info ≡ info
    → d.readable_length_info ≡ readable
    → IsNamed sys index d dev
    → let r = read_capacity info readable dev in
      IsDevice sys index d r.0
      × Balanced (opened query_handle ∷ (r.1 ++ (closed query_handle ∷ [])))
unfolding read_capacity
measured sys index d dev (some bytes) readable ei er h =
    (IsNamed-measured sys index d dev true _ h (rw ei (refl, refl)), query_alone)
measured sys index d dev none none ei er h =
    (IsNamed-measured sys index d dev _ _ h (rw (ei, er) h.unmeasured), query_alone)
measured sys index d dev none (some info) ei er h = (
  by_info info er,
  brackets query_handle _ [] (brackets read_handle [] [] nothing nothing) nothing,
)
  where
    by_info :
        (info : Option ℕ)
        → d.readable_length_info ≡ some info
        → IsDevice sys index d (read_capacity none (some info) dev).0
    by_info none er = IsNamed-measured sys index d dev _ _ h (rw (ei, er) h.unmeasured)
    by_info (some bytes) er = IsNamed-measured sys index d dev true _ h (rw (ei, er) (refl, refl))

-- X
pub query_drive-Returns :
    (sys : System) (index : ℕ) (d : Drive)
    → IsDrive d
    → Returns
        (λ r. ((dev : StorageDevice) × (r.0 ≡ some dev) × IsDevice sys index d dev) × Balanced r.1)
        (query_drive sys index (some d))
unfolding query_drive
query_drive-Returns sys index d drive =
    Returns->>= (plain index d.device_property drive.property) λ dev hp.
      Returns->>=
        (Returns-if (is_nvme dev.bus_type)
          (λ nvme.
            named sys index d dev sys.has_protocol_data d.nvme_identify refl refl drive hp nvme)
          (λ _. returns dev (IsPlain-IsNamed sys index d dev hp)))
        λ dev' hn.
          let (device, balanced) =
            measured sys index d dev' d.length_info d.readable_length_info refl refl hn in
          returns _ ((_, refl, device), balanced)
