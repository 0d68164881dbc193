-- ===== src/Cost/Azure.antt =====
-- The Azure side of rust/src/calculation/cost.rs, and the savings.
use tco_calculator.Prelude.{ℕ, Result, ok, ◌>>◌, fail_if, if◌then◌else◌}
use tco_calculator.Decimal.{Decimal, ◌+◌, ◌-◌, ◌*◌, ◌/◌, ◌<◌, ◌==◌, nought, one, max_decimal}
use tco_calculator.Domain.Project.{ProjectSettings}
use tco_calculator.Cost.Types.{
  SourceCostBreakdown, AzureCostBreakdown, SavingsBreakdown, AzureRate, CostError,
  invalid_azure_vm_rate_components,
}
use tco_calculator.Cost.Rates.{validate_rate, apply_discount}

abbrev pub azure_mi_storage_unit_gb : ℕ
azure_mi_storage_unit_gb = 32

module _ {D : Type 0} ⦃d : Decimal D⦄ where
  unfoldable pub azure_mi_configured_storage_gb : D → D
  unfolding max_decimal
  azure_mi_configured_storage_gb required_storage_gb =
      let storage_unit_gb = d.from azure_mi_storage_unit_gb in
      let storage_units = max_decimal (d.ceil (required_storage_gb / storage_unit_gb)) one in
      storage_units * storage_unit_gb

  unfoldable pub azure_mi_billable_storage_gb : D → D
  unfolding max_decimal
  azure_mi_billable_storage_gb configured_storage_gb =
      max_decimal (configured_storage_gb - d.from azure_mi_storage_unit_gb) nought

  unfoldable pub calculate_azure :
      ℕ → D → D → D → D → AzureRate D → ProjectSettings D → Result CostError (AzureCostBreakdown D)
  calculate_azure instances hours azure_storage_gb_per_instance included_memory_gb
        selected_memory_gb rate settings =
      do
        validate_rate rate.compute_hourly
        validate_rate rate.license_hourly
        validate_rate rate.storage_monthly_per_gb
        validate_rate rate.additional_memory_per_gb_hourly
        let quantity = d.from instances
        let compute_gross = quantity * hours * rate.compute_hourly
        let additional_ram_gb = max_decimal (selected_memory_gb - included_memory_gb) nought
        let additional_ram_gross =
            quantity * hours * additional_ram_gb * rate.additional_memory_per_gb_hourly
        let compute_plus_ram_net =
            apply_discount (compute_gross + additional_ram_gross) settings.azure_compute_discount
        let license_gross = quantity * hours * rate.license_hourly
        let license_net = apply_discount license_gross settings.azure_license_discount
        let billable_storage_gb = azure_mi_billable_storage_gb azure_storage_gb_per_instance
        let storage_gross = quantity * billable_storage_gb * d.from 12 * rate.storage_monthly_per_gb
        let storage_net = apply_discount storage_gross settings.azure_storage_discount
        ok (record {
          compute_gross = compute_gross;
          additional_ram_gb = additional_ram_gb;
          additional_ram_gross = additional_ram_gross;
          compute_plus_ram_net = compute_plus_ram_net;
          license_gross = license_gross;
          license_net = license_net;
          storage_gross = storage_gross;
          storage_net = storage_net;
          total_before_parity = compute_plus_ram_net + license_net + storage_net;
        })

  unfoldable pub calculate_azure_vm :
      ℕ → D → D → D → D → ProjectSettings D → Result CostError (AzureCostBreakdown D)
  calculate_azure_vm instances annual_hours vm_total_hourly_rate vm_license_hourly_rate
        managed_disk_monthly settings =
      do
        validate_rate vm_total_hourly_rate
        validate_rate vm_license_hourly_rate
        validate_rate managed_disk_monthly
        fail_if (vm_total_hourly_rate < vm_license_hourly_rate) invalid_azure_vm_rate_components
        let quantity = d.from instances
        let compute_hourly_rate = vm_total_hourly_rate - vm_license_hourly_rate
        let compute_gross = quantity * annual_hours * compute_hourly_rate
        let compute_net = apply_discount compute_gross settings.azure_compute_discount
        let license_gross = quantity * annual_hours * vm_license_hourly_rate
        let license_net = apply_discount license_gross settings.azure_license_discount
        let storage_gross = quantity * d.from 12 * managed_disk_monthly
        let storage_net = apply_discount storage_gross settings.azure_storage_discount
        ok (record {
          compute_gross = compute_gross;
          additional_ram_gb = nought;
          additional_ram_gross = nought;
          compute_plus_ram_net = compute_net;
          license_gross = license_gross;
          license_net = license_net;
          storage_gross = storage_gross;
          storage_net = storage_net;
          total_before_parity = compute_net + license_net + storage_net;
        })

  unfoldable pub calculate_savings :
      SourceCostBreakdown D → AzureCostBreakdown D → D → SavingsBreakdown D
  calculate_savings source azure selected_adjustment =
      let required_adjustment =
        if azure.total_before_parity == nought
        then nought
        else one - source.total / azure.total_before_parity in
      let azure_after_selected_parity = azure.total_before_parity * (one - selected_adjustment) in
      record {
        compute_savings = source.compute_net - azure.compute_plus_ram_net;
        license_savings = source.license_net - azure.license_net;
        storage_savings = source.storage_net - azure.storage_net;
        total_savings = source.total - azure.total_before_parity;
        required_adjustment = required_adjustment;
        selected_adjustment = selected_adjustment;
        azure_after_selected_parity = azure_after_selected_parity;
        difference = azure_after_selected_parity - source.total;
      }
