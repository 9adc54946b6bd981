-- ===== src/Storage/Query/Device.antt =====
-- What `query_device` reports of a drive.
use hardware_monitor_azk.Base.{
  ℕ, ◌+◌, ◌-◌, ◌≤◌, ◌<◌, ◌≡◌, refl, arith, true, false, some, if◌then◌else◌, length,
}
use hardware_monitor_azk.Buffer.{Bytes}
use mathlib.Core.Path.{subst}
use hardware_monitor_azk.Buffer.Returns.{Returns, returns, Returns->>=, Returns-if, Returns-mono}
use hardware_monitor_azk.Buffer.Text.{IsTextEnd, Returns-strnlen}
use hardware_monitor_azk.Smbios.Types.{IsField}
use hardware_monitor_azk.Storage.Types.{StorageDevice, Descriptor, Drive}
use hardware_monitor_azk.Storage.Trim.{IsTrimmed, trim_copy, trim_copy-IsTrimmed, IsTrimmed-IsField}
use hardware_monitor_azk.Storage.Query.{
  map_bus_type, is_present, copy_text, copy_present, read_descriptor,
}

-- What Windows promises of an answer.
pub record IsDescriptor (d : Descriptor) : Type 0 where
  pub buffer_size : length d.buffer ≡ 1024
  pub within : d.bytes_returned ≤ 1024

pub record IsDrive (d : Drive) : Type 0 where
  pub property : (p : Descriptor) → d.device_property ≡ some p → IsDescriptor p
  pub identify : (bytes : Bytes) → d.nvme_identify ≡ some bytes → length bytes ≡ 4096

-- An array holds the `len` characters at `p`, trimmed; or the string there, which ends with the
-- answer or before.
abbrev pub HoldsText : Bytes → Bytes → ℕ → ℕ → Type 0
HoldsText array src p len = (dst : Bytes) × IsTrimmed dst src p len array

abbrev pub HoldsString : Descriptor → ℕ → Bytes → Type 0
HoldsString d offset array =
    (n : ℕ) × IsTextEnd d.buffer offset (d.bytes_returned - offset) n
    × HoldsText array d.buffer offset n

-- The arrays of a device are terminated texts.
pub record HasFields (dev : StorageDevice) : Type 0 where
  pub model : IsField 80 dev.model
  pub firmware_revision : IsField 32 dev.firmware_revision
  pub serial : IsField 80 dev.serial

pub trim_copy-Returns :
    (dst src : Bytes) (dst_size p len : ℕ)
    → IsField dst_size dst
    → 0 < dst_size
    → p + len ≤ length src
    → Returns (λ a. IsField dst_size a × HoldsText a src p len) (trim_copy dst dst_size src p len)
trim_copy-Returns dst src dst_size p len field room inside =
    Returns-mono (trim_copy-IsTrimmed dst src dst_size p len field.size room inside) λ a t. (
      subst (λ n. IsField n a) field.size
          (IsTrimmed-IsField dst src p len a (omega (arith, field.size)) inside t),
      (dst, t),
    )

copy_text-Returns :
    (d : Descriptor) (offset : ℕ) (dst : Bytes) (dst_size : ℕ)
    → IsDescriptor d
    → is_present d offset ≡ true
    → IsField dst_size dst
    → 0 < dst_size
    → Returns (λ a. IsField dst_size a × HoldsString d offset a) (copy_text d offset dst dst_size)
unfolding copy_text
copy_text-Returns d offset dst dst_size h present field room =
    let below : offset < d.bytes_returned = ground arith in
    Returns->>=
      (Returns-strnlen d.buffer offset (d.bytes_returned - offset)
        (omega (arith, h.buffer_size, h.within)))
      λ n t.
        Returns-mono
          (trim_copy-Returns dst d.buffer dst_size offset n field room
            (omega (arith, h.buffer_size, h.within, t.within)))
          λ a k. (k.0, (n, t, k.1))

copy_present-Returns :
    (d : Descriptor) (offset : ℕ) (dst : Bytes) (dst_size : ℕ)
    → IsDescriptor d
    → IsField dst_size dst
    → 0 < dst_size
    → Returns
        (λ a. IsField dst_size a × (is_present d offset ≡ true → HoldsString d offset a))
        (copy_present d offset dst dst_size)
unfolding copy_present
copy_present-Returns d offset dst dst_size h field room =
    Returns-if (is_present d offset)
      (λ present.
        Returns-mono (copy_text-Returns d offset dst dst_size h present field room)
          (λ a k. (k.0, λ _. k.1)))
      (λ absent. returns dst (field, λ present. cc))

-- The strings of a descriptor in a device.
pub record IsDescribed (d : Descriptor) (dev : StorageDevice) : Type 0 where
  pub product :
      is_present d d.product_id_offset ≡ true → HoldsString d d.product_id_offset dev.model
  pub vendor :
      is_present d d.product_id_offset ≡ false
      → is_present d d.vendor_id_offset ≡ true
      → HoldsString d d.vendor_id_offset dev.model
  pub revision :
      is_present d d.product_revision_offset ≡ true
      → HoldsString d d.product_revision_offset dev.firmware_revision
  pub serial_number :
      is_present d d.serial_number_offset ≡ true → HoldsString d d.serial_number_offset dev.serial

pub read_descriptor-Returns :
    (d : Descriptor) (dev : StorageDevice)
    → IsDescriptor d
    → HasFields dev
    → Returns
        (λ r.
          HasFields r
          × IsDescribed d r
          × (r.index ≡ dev.index)
          × (r.bus_type ≡ map_bus_type d.descriptor_bus_type)
          × (r.nvme_identify_used ≡ dev.nvme_identify_used)
          × (r.capacity_available ≡ dev.capacity_available)
          × (r.capacity_bytes ≡ dev.capacity_bytes))
        (read_descriptor (some d) dev)
unfolding read_descriptor
read_descriptor-Returns d dev h fields = Returns->>= model λ m hm.
    Returns->>=
      (copy_present-Returns d _ dev.firmware_revision 32 h fields.firmware_revision (omega arith))
      λ f hf.
        Returns->>= (copy_present-Returns d _ dev.serial 80 h fields.serial (omega arith)) λ s hs.
          returns _ (
            record { model = hm.0; firmware_revision = hf.0; serial = hs.0 },
            record { product = hm.1; vendor = hm.2; revision = hf.1; serial_number = hs.1 },
            refl,
            refl,
            refl,
            refl,
            refl,
          )
  where
    model :
        Returns
          (λ m.
            IsField 80 m
            × (is_present d d.product_id_offset ≡ true → HoldsString d d.product_id_offset m)
            × (is_present d d.product_id_offset ≡ false
                → is_present d d.vendor_id_offset ≡ true
                → HoldsString d d.vendor_id_offset m))
          (if is_present d d.product_id_offset
            then copy_text d d.product_id_offset dev.model 80
            else copy_present d d.vendor_id_offset dev.model 80)
    model =
        Returns-if (is_present d d.product_id_offset)
          (λ present.
            Returns-mono (copy_text-Returns d _ dev.model 80 h present fields.model (omega arith))
              λ a k. (k.0, (λ _. k.1), λ absent. cc))
          (λ absent.
            Returns-mono
              (copy_present-Returns d d.vendor_id_offset dev.model 80 h fields.model (omega arith))
              λ a k. (k.0, (λ present. cc), λ _. k.1))
